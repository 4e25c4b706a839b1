-- ===== src/Msix/Table.antt =====
-- The MSI-X table, src/bsa_pcie_exerciser/gateware/msix/table.py, the class LitePCIeMSIXTable, for
-- 2048 vectors.
use bsa_pcie_exerciser.Prelude.{
  ℕ, ◌+◌, ◌*◌, ◌%◌, ◌^◌, Bool, true, false, ◌&&◌, ◌==◌, if◌then◌else◌, bit, slice,
}
use bsa_pcie_exerciser.Prelude.Memory.{store}

pub data State : Type 0 where
  idle write read_addr read_data complete : State

-- The registers of the module; `a_dat_r` and `b_dat_r` are those of the two memory ports.
pub record Table : Type 0 where
  pub state : State
  pub mem : ℕ → ℕ
  pub a_dat_r : ℕ
  pub b_dat_r : ℕ
  pub req_adr : ℕ
  pub req_len : ℕ
  pub req_tag : ℕ
  pub req_req_id : ℕ
  pub req_we : Bool
  pub qword_idx : ℕ
  pub read_word : ℕ
  pub read_valid : Bool
  pub int_read_cnt : ℕ
  pub int_read_active : Bool
  pub int_qword0 : ℕ
  pub int_qword1 : ℕ

-- One beat of the request stream, and the readiness of the completion stream.
pub record Inputs : Type 0 where
  pub valid : Bool
  pub first : Bool
  pub last : Bool
  pub we : Bool
  pub adr : ℕ
  pub len : ℕ
  pub tag : ℕ
  pub req_id : ℕ
  pub dat : ℕ
  pub first_be : ℕ
  pub last_be : ℕ
  pub cpl_ready : Bool

-- Every vector is masked at reset.
unfoldable pub mem_init : ℕ → ℕ
mem_init n = if n % 2 == 1 then 0x0000_0001_0000_0000 else 0

abbrev pub reset : Table
reset = record {
  state = idle;
  mem = mem_init;
  a_dat_r = 0;
  b_dat_r = 0;
  req_adr = 0;
  req_len = 0;
  req_tag = 0;
  req_req_id = 0;
  req_we = false;
  qword_idx = 0;
  read_word = 0;
  read_valid = false;
  int_read_cnt = 0;
  int_read_active = false;
  int_qword0 = 0;
  int_qword1 = 0;
}

unfoldable pub upper_dword_write : Inputs → Bool
upper_dword_write i = i.len == 1 && bit i.adr 2

unfoldable pub write_be : Inputs → ℕ
unfolding upper_dword_write
write_be i =
    if upper_dword_write i
    then i.first_be % 2 ^ 4 * 2 ^ 4
    else i.first_be % 2 ^ 4 + i.last_be % 2 ^ 4 * 2 ^ 4

unfoldable pub write_data : Inputs → ℕ
unfolding upper_dword_write
write_data i = if upper_dword_write i then slice i.dat 0 32 * 2 ^ 32 else i.dat

-- Port A: its address and byte enables in each state.
unfoldable pub a_adr : State → Table → Inputs → ℕ
a_adr idle s i = slice i.adr 3 12
a_adr write s i = s.qword_idx
a_adr read_addr s i = s.qword_idx
a_adr read_data s i = s.qword_idx
a_adr complete s i = 0

unfoldable pub a_we : State → Inputs → ℕ
unfolding write_be
a_we idle i = if i.valid && i.first && i.we then write_be i else 0
a_we write i = if i.valid then write_be i else 0
a_we _ i = 0

-- Both ports are read-first; port B reads when it is enabled.
unfoldable pub memory : Table → Inputs → ℕ → Table
unfolding a_adr a_we store write_data
memory s i vector_num =
    let adr = a_adr s.state s i in
    record s {
      mem = store adr (a_we s.state i) (write_data i) s.mem;
      a_dat_r = s.mem adr;
      b_dat_r =
          if s.int_read_active then s.mem (s.int_read_cnt % 2 + vector_num * 2) else s.b_dat_r;
    }

unfoldable pub in_idle : Table → Inputs → Table → Table
in_idle s i t =
    if i.valid && i.first
    then record t {
      req_adr = i.adr % 2 ^ 32;
      req_len = i.len;
      req_tag = i.tag;
      req_req_id = i.req_id;
      req_we = i.we;
      qword_idx = slice i.adr 3 12;
      state = if i.we then write else read_addr;
    }
    else t

unfoldable pub in_write : Table → Inputs → Table → Table
in_write s i t =
    if i.valid
    then record t { qword_idx = (s.qword_idx + 1) % 2 ^ 12; state = if i.last then idle else write }
    else record t { state = idle }

-- The FSM, over what the memory has become.
unfoldable pub dispatch : State → Table → Inputs → Table → Table
unfolding in_idle in_write
dispatch idle s i t = in_idle s i t
dispatch write s i t = in_write s i t
dispatch read_addr s i t = record t { state = read_data }
dispatch read_data s i t = record t { read_word = s.a_dat_r; state = complete }
dispatch complete s i t = if i.cpl_ready then record t { state = idle } else t

-- The read of an entry for the controller.
unfoldable pub internal : Table → Bool → Table → Table
internal s read_en t =
    let u = record t { read_valid = false } in
    if s.int_read_active
    then (let v = record u { int_read_cnt = (s.int_read_cnt + 1) % 2 ^ 2 } in
        if s.int_read_cnt == 1
        then record v { int_qword0 = s.b_dat_r }
        else if s.int_read_cnt == 2
        then record v { int_qword1 = s.b_dat_r; int_read_active = false; read_valid = true }
        else v)
    else if read_en
    then record u { int_read_active = true; int_read_cnt = 0 }
    else u

-- One clock cycle; `read_en` and `vector_num` come from the controller.
unfoldable pub step : Table → Inputs → Bool → ℕ → Table
unfolding memory dispatch internal
step s i read_en vector_num = internal s read_en (dispatch s.state s i (memory s i vector_num))

-- The outputs: the completion's data, and the entry of the controller.
unfoldable pub cpl_data : Table → ℕ
cpl_data s =
    if s.req_len == 1
    then (if bit s.req_adr 2 then slice s.read_word 32 32 else slice s.read_word 0 32)
    else s.read_word

unfoldable pub msg_addr : Table → ℕ
msg_addr s = s.int_qword0

unfoldable pub msg_data : Table → ℕ
msg_data s = slice s.int_qword1 0 32

unfoldable pub masked : Table → Bool
masked s = bit s.int_qword1 32
