-- ===== src/Dma/Window.antt =====
-- The host's window on the buffer: src/bsa_pcie_exerciser/gateware/dma/handler.py, the class
-- BSADMABufferHandler, with port B of the 16 KiB buffer of dma/buffer.py. The engine does not use
-- port A meanwhile.
pub mod Host
pub mod Bytes
use bsa_pcie_exerciser.Prelude.{
  ℕ, ◌+◌, ◌-◌, ◌*◌, ◌%◌, ◌^◌, Bool, true, false, ◌&&◌, ◌||◌, not, ◌==◌, if◌then◌else◌, bit, slice,
}
use bsa_pcie_exerciser.Prelude.Memory.{store}

pub data State : Type 0 where
  idle write read_addr read_data complete : State

-- The registers of the module, and the memory with the read register of port B.
pub record Window : Type 0 where
  pub state : State
  pub mem : ℕ → ℕ
  pub b_dat_r : ℕ
  pub req_adr : ℕ
  pub req_len : ℕ
  pub req_tag : ℕ
  pub req_req_id : ℕ
  pub req_we : Bool
  pub poisoned_read : Bool
  pub qword_idx : ℕ
  pub read_word : ℕ
  pub poison_event : Bool

-- One beat of the dispatcher, the readiness of the arbiter, and the poison mode.
pub record Inputs : Type 0 where
  pub valid : Bool
  pub first : Bool
  pub last : Bool
  pub we : Bool
  pub adr : ℕ
  pub len : ℕ
  pub tag : ℕ
  pub req_id : ℕ
  pub dat : ℕ
  pub first_be : ℕ
  pub last_be : ℕ
  pub cpl_ready : Bool
  pub poison_mode : Bool

abbrev pub reset : Window
reset = record {
  state = idle;
  mem = λ _. 0;
  b_dat_r = 0;
  req_adr = 0;
  req_len = 0;
  req_tag = 0;
  req_req_id = 0;
  req_we = false;
  poisoned_read = false;
  qword_idx = 0;
  read_word = 0;
  poison_event = false;
}

unfoldable pub write_be : Inputs → ℕ
write_be i = i.first_be % 2 ^ 4 + i.last_be % 2 ^ 4 * 2 ^ 4

-- Port B: its address and byte enables in each state.
unfoldable pub b_adr : State → Window → Inputs → ℕ
b_adr idle s i = slice i.adr 3 11
b_adr write s i = s.qword_idx
b_adr read_addr s i = s.qword_idx
b_adr read_data s i = s.qword_idx
b_adr complete s i = 0

unfoldable pub b_we : State → Inputs → ℕ
unfolding write_be
b_we idle i = if i.valid && i.first && i.we && not i.poison_mode then write_be i else 0
b_we write i = if i.valid && not i.poison_mode then write_be i else 0
b_we _ i = 0

-- The read enable of port B is never driven.
abbrev pub b_re : Bool
b_re = false

-- The two variants of the buffer: Migen's port (`simulation`) is write-first and reads in every
-- cycle; the XPM port is read-first and reads only when it is enabled.
unfoldable pub port : Bool → ℕ → ℕ → ℕ → Window → Window
port true adr we dat s =
    let written = store adr we dat s.mem in record s { mem = written; b_dat_r = written adr }
port false adr we dat s = record s {
  mem = store adr we dat s.mem;
  b_dat_r = if not (we == 0) || b_re then s.mem adr else s.b_dat_r;
}

unfoldable pub in_idle : Inputs → Window → Window
in_idle i t =
    if i.valid && i.first
    then record t {
      req_adr = i.adr % 2 ^ 32;
      req_len = i.len;
      req_tag = i.tag;
      req_req_id = i.req_id;
      req_we = i.we;
      qword_idx = slice i.adr 3 11;
      poisoned_read = not i.we && i.poison_mode;
      state = if i.we then write else read_addr;
    }
    else t

unfoldable pub in_write : Window → Inputs → Window → Window
in_write s i t =
    if i.valid
    then record t { qword_idx = (s.qword_idx + 1) % 2 ^ 11; state = if i.last then idle else write }
    else record t { state = idle }

-- The FSM, over what the memory has become.
unfoldable pub dispatch : State → Window → Inputs → Window → Window
unfolding in_idle in_write
dispatch idle s i t = in_idle i t
dispatch write s i t = in_write s i t
dispatch read_addr s i t = record t { state = read_data }
dispatch read_data s i t = record t { read_word = s.b_dat_r; state = complete }
dispatch complete s i t = if i.cpl_ready then record t { state = idle } else t

unfoldable pub poisons : State → Inputs → Bool
poisons idle i = i.valid && i.first && not i.we && i.poison_mode
poisons _ i = false

-- One clock cycle.
unfoldable pub step : Bool → Window → Inputs → Window
unfolding port b_adr b_we dispatch poisons
step simulation s i =
    let t = port simulation (b_adr s.state s i) (b_we s.state i) i.dat s in
    record (dispatch s.state s i t) { poison_event = poisons s.state i }

unfoldable pub selected : ℕ → ℕ → ℕ → ℕ
selected len adr word =
    if len == 1 then (if bit adr 2 then slice word 32 32 else slice word 0 32) else word

unfoldable pub cpl_data : Window → ℕ
unfolding selected
cpl_data s = if s.poisoned_read then 2 ^ 64 - 1 else selected s.req_len s.req_adr s.read_word
