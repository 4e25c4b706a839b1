-- ===== src/Ats/Engine.antt =====
-- The translation request engine, src/bsa_pcie_exerciser/gateware/ats/engine.py.
pub mod Answer
pub mod Limits
use bsa_pcie_exerciser.Prelude.{
  ℕ, ◌+◌, ◌-◌, ◌*◌, ◌/◌, ◌%◌, ◌^◌, Bool, true, false, ◌&&◌, ◌||◌, ◌==◌, if◌then◌else◌, bit, slice,
  b2n,
}

pub data State : Type 0 where
  idle send_req wait_cpl parse_cpl store : State

-- The registers of the module.
pub record Engine : Type 0 where
  pub state : State
  pub success : Bool
  pub cacheable : Bool
  pub translated_addr : ℕ
  pub range_size : ℕ
  pub permissions : ℕ
  pub current_addr : ℕ
  pub current_pasid_en : Bool
  pub current_pasid_val : ℕ
  pub current_priv : Bool
  pub current_no_write : Bool
  pub current_exec_req : Bool
  pub current_tag : ℕ
  pub timeout_counter : ℕ
  pub cpl_data : ℕ
  pub cpl_valid : Bool

-- The input signals of one cycle; `source_ready` and `sink_…` are those of the master port.
pub record Inputs : Type 0 where
  pub trigger : Bool
  pub address : ℕ
  pub pasid_en : Bool
  pub pasid_val : ℕ
  pub privileged : Bool
  pub no_write : Bool
  pub exec_req : Bool
  pub clear_atc : Bool
  pub retry : Bool
  pub source_ready : Bool
  pub sink_valid : Bool
  pub sink_err : Bool
  pub sink_last : Bool
  pub sink_end : Bool
  pub sink_dat : ℕ

-- The request TLP that the engine presents in SEND_REQ.
pub record Request : Type 0 where
  pub we : Bool
  pub adr : ℕ
  pub len : ℕ
  pub tag : ℕ
  pub attr : ℕ
  pub at : ℕ
  pub first_be : ℕ
  pub last_be : ℕ
  pub req_pasid_en : Bool
  pub req_pasid_val : ℕ
  pub req_privileged : Bool
  pub req_execute : Bool

abbrev pub ats_tag_base : ℕ
ats_tag_base = 0xf0

abbrev pub reset : Engine
reset = record {
  state = idle;
  success = false;
  cacheable = false;
  translated_addr = 0;
  range_size = 0;
  permissions = 0;
  current_addr = 0;
  current_pasid_en = false;
  current_pasid_val = 0;
  current_priv = false;
  current_no_write = false;
  current_exec_req = false;
  current_tag = ats_tag_base;
  timeout_counter = 0;
  cpl_data = 0;
  cpl_valid = false;
}

-- The two `If` blocks of IDLE: the second sees the results of the first only where it does not
-- write itself.
clear_results : Engine → Engine
clear_results s = record s {
  success = false;
  cacheable = false;
  translated_addr = 0;
  range_size = 0;
  permissions = 0;
}

latch : Engine → Inputs → Engine
latch s i = record s {
  current_addr = i.address;
  current_pasid_en = i.pasid_en;
  current_pasid_val = i.pasid_val;
  current_priv = i.privileged;
  current_no_write = i.no_write;
  current_exec_req = i.exec_req;
  success = false;
  state = send_req;
}

in_idle : Engine → Inputs → Engine
unfolding clear_results latch
in_idle s i =
    let t = if i.clear_atc then clear_results s else s in if i.trigger then latch t i else t

-- The request of SEND_REQ; `Cat(0b111, current_no_write)` is the no-write hint in first_be[3].
unfoldable pub request : Engine → Request
request s = record {
  we = false;
  adr = s.current_addr;
  len = 1;
  tag = s.current_tag;
  attr = 0;
  at = 1;
  first_be = 7 + 8 * b2n s.current_no_write;
  last_be = 0xf;
  req_pasid_en = s.current_pasid_en;
  req_pasid_val = s.current_pasid_val;
  req_privileged = s.current_priv;
  req_execute = s.current_exec_req;
}

next_tag : ℕ → ℕ
next_tag tag = if tag == 0xff then ats_tag_base else (tag + 1) % 2 ^ 8

in_send_req : Engine → Inputs → Engine
unfolding next_tag
in_send_req s i =
    if i.source_ready
    then record s { current_tag = next_tag s.current_tag; timeout_counter = 0; state = wait_cpl }
    else s

in_wait_cpl : Engine → Inputs → Engine
in_wait_cpl s i =
    let t = record s { timeout_counter = (s.timeout_counter + 1) % 2 ^ 24 } in
    if i.retry
    then record t { timeout_counter = 0; state = send_req }
    else if s.timeout_counter == 0xff_ffff
    then record t { success = false; state = idle }
    else if i.sink_valid
    then (if i.sink_err
        then record t { timeout_counter = 0; success = false; state = idle }
        else record t {
          timeout_counter = 0;
          cpl_data = i.sink_dat;
          cpl_valid = true;
          state = if i.sink_last && i.sink_end then parse_cpl else wait_cpl;
        })
    else t

-- `cpl_data & 0xFFFFFFFFFFFFF000` for a 64-bit value.
unfoldable pub trans_addr : ℕ → ℕ
trans_addr d = d / 2 ^ 12 * 2 ^ 12

unfoldable pub s_field : ℕ → ℕ
s_field d = slice d 6 5

-- `1 << (s_field + 12)` into the 32-bit register.
unfoldable pub range_of : ℕ → ℕ
unfolding s_field
range_of d = 2 ^ (s_field d + 12) % 2 ^ 32

-- [1] write, [2] read, [4] write_priv, [6] read_priv; the other bits are 0.
unfoldable pub permissions_of : Bool → ℕ → ℕ
permissions_of priv d =
    2 * b2n (bit d 1)
    + 4 * b2n (bit d 0)
    + 16 * b2n (bit d 1 && priv && bit d 2)
    + 64 * b2n (bit d 0 && priv && bit d 2)

in_parse_cpl : Engine → Engine
unfolding trans_addr range_of permissions_of
in_parse_cpl s =
    if bit s.cpl_data 4
    then record s { success = false; cacheable = false; state = store }
    else record s {
      success = true;
      translated_addr = trans_addr s.cpl_data;
      range_size = range_of s.cpl_data;
      cacheable = bit s.cpl_data 0 || bit s.cpl_data 1;
      permissions = permissions_of s.current_priv s.cpl_data;
      state = store;
    }

dispatch : State → Engine → Inputs → Engine
unfolding in_idle in_send_req in_wait_cpl in_parse_cpl
dispatch idle s i = in_idle s i
dispatch send_req s i = in_send_req s i
dispatch wait_cpl s i = in_wait_cpl s i
dispatch parse_cpl s i = in_parse_cpl s
dispatch store s i = record s { state = idle }

-- One clock cycle.
unfoldable pub step : Engine → Inputs → Engine
unfolding dispatch
step s i = dispatch s.state s i

abbrev pub is_idle : State → Bool
is_idle idle = true
is_idle _ = false

abbrev pub is_store : State → Bool
is_store store = true
is_store _ = false

-- The combinational outputs.
unfoldable pub in_flight : Engine → Bool
in_flight s = if is_idle s.state then false else true

unfoldable pub result_we : Engine → Bool
result_we s = is_store s.state
