-- ===== src/Ats/Invalidation.antt =====
-- The handler of invalidation requests, src/bsa_pcie_exerciser/gateware/ats/invalidation.py.
pub mod Decision
pub mod Message
pub mod Reach
use bsa_pcie_exerciser.Prelude.{
  ℕ, ◌+◌, ◌-◌, ◌*◌, ◌/◌, ◌%◌, ◌^◌, Bool, true, false, ◌&&◌, ◌||◌, not, leb, ◌==◌, if◌then◌else◌,
}

pub data State : Type 0 where
  idle receive check wait_ats wait_dma invalidate send_cpl : State

-- The registers of the module.
pub record Handler : Type 0 where
  pub state : State
  pub inv_addr : ℕ
  pub inv_size : ℕ
  pub inv_pasid_valid : Bool
  pub inv_pasid_val : ℕ
  pub inv_global : Bool
  pub inv_req_id : ℕ
  pub inv_tag : ℕ
  pub inv_itag : ℕ
  pub msg_beat : Bool

-- The input signals of one cycle: the message stream, the cache's entry, the engines' state and
-- the readiness of the output.
pub record Inputs : Type 0 where
  pub inv_valid : Bool
  pub inv_first : Bool
  pub inv_last : Bool
  pub address : ℕ
  pub s_bit : Bool
  pub g_bit : Bool
  pub requester_id : ℕ
  pub tag : ℕ
  pub itag : ℕ
  pub atc_valid : Bool
  pub atc_input_addr : ℕ
  pub atc_input_addr_end : ℕ
  pub atc_pasid_valid : Bool
  pub atc_pasid_val : ℕ
  pub ats_in_flight : Bool
  pub dma_busy : Bool
  pub dma_using_atc : Bool
  pub msg_ready : Bool

abbrev pub reset : Handler
reset = record {
  state = idle;
  inv_addr = 0;
  inv_size = 0;
  inv_pasid_valid = false;
  inv_pasid_val = 0;
  inv_global = false;
  inv_req_id = 0;
  inv_tag = 0;
  inv_itag = 0;
  msg_beat = false;
}

-- `inv_addr + inv_size - 1` in 64 bits.
unfoldable pub inv_end_addr : Handler → ℕ
inv_end_addr s = (s.inv_addr + s.inv_size + 2 ^ 64 - 1) % 2 ^ 64

unfoldable pub ranges_overlap : Handler → Inputs → Bool
unfolding inv_end_addr
ranges_overlap s i = leb i.atc_input_addr (inv_end_addr s) && leb s.inv_addr i.atc_input_addr_end

unfoldable pub pasid_match : Handler → Inputs → Bool
pasid_match s i =
    s.inv_global
    || (not i.atc_pasid_valid && not s.inv_pasid_valid)
    || (i.atc_pasid_valid && s.inv_pasid_valid && i.atc_pasid_val == s.inv_pasid_val)

unfoldable pub should_invalidate : Handler → Inputs → Bool
unfolding ranges_overlap pasid_match
should_invalidate s i = i.atc_valid && ranges_overlap s i && pasid_match s i

-- The four words of the completion message; `id` is the PHY's requester ID.
unfoldable pub msg_dw0 : ℕ
msg_dw0 = 1 * 2 ^ 29 + 18 * 2 ^ 24

unfoldable pub msg_dw1 : ℕ → Handler → ℕ
msg_dw1 id s = id * 2 ^ 16 + s.inv_tag * 2 ^ 8 + 2

unfoldable pub msg_dw2 : Handler → ℕ
msg_dw2 s = s.inv_req_id * 2 ^ 16 + s.inv_itag % 2 ^ 5 * 2 ^ 3

unfoldable pub msg_dw3 : ℕ
msg_dw3 = 0

in_idle : Handler → Inputs → Handler
in_idle s i =
    if i.inv_valid && i.inv_first
    then record s {
      inv_addr = i.address % 2 ^ 32 / 2 ^ 12 * 2 ^ 12;
      inv_size = if i.s_bit then 0 else 4096;
      inv_req_id = i.requester_id;
      inv_tag = i.tag;
      inv_itag = i.itag;
      inv_global = i.g_bit;
      inv_pasid_valid = false;
      inv_pasid_val = 0;
      state = if i.inv_last then check else receive;
    }
    else s

in_receive : Handler → Inputs → Handler
in_receive s i =
    if i.inv_valid
    then record s {
      inv_size = if s.inv_size == 0 then 4096 else s.inv_size;
      state = if i.inv_last then check else receive;
    }
    else s

in_check : Handler → Inputs → Handler
unfolding should_invalidate
in_check s i =
    if not i.atc_valid
    then record s { state = send_cpl }
    else if not (should_invalidate s i)
    then record s { state = send_cpl }
    else if i.ats_in_flight
    then record s { state = wait_ats }
    else if i.dma_busy && i.dma_using_atc
    then record s { state = wait_dma }
    else record s { state = invalidate }

in_send_cpl : Handler → Inputs → Handler
in_send_cpl s i =
    if not i.msg_ready
    then s
    else if not s.msg_beat
    then record s { msg_beat = true }
    else record s { msg_beat = false; state = idle }

dispatch : State → Handler → Inputs → Handler
unfolding in_idle in_receive in_check in_send_cpl
dispatch idle s i = in_idle s i
dispatch receive s i = in_receive s i
dispatch check s i = in_check s i
dispatch wait_ats s i = if i.ats_in_flight then s else record s { state = invalidate }
dispatch wait_dma s i = if i.dma_busy then s else record s { state = invalidate }
dispatch invalidate s i = record s { state = send_cpl }
dispatch send_cpl s i = in_send_cpl s i

-- One clock cycle.
unfoldable pub step : Handler → Inputs → Handler
unfolding dispatch
step s i = dispatch s.state s i

is_check : State → Bool
is_check check = true
is_check _ = false

is_invalidate : State → Bool
is_invalidate invalidate = true
is_invalidate _ = false

-- The combinational outputs.
unfoldable pub atc_invalidate : Handler → Bool
unfolding is_invalidate
atc_invalidate s = is_invalidate s.state

unfoldable pub ats_retry : Handler → Inputs → Bool
unfolding is_check should_invalidate
ats_retry s i = is_check s.state && should_invalidate s i && i.ats_in_flight

-- The beat presented in SEND_CPL: two words, `first` and `last`.
unfoldable pub msg_out : ℕ → Handler → ℕ × ℕ × Bool × Bool
unfolding msg_dw0 msg_dw1 msg_dw2 msg_dw3
msg_out id s = (
  if s.msg_beat then msg_dw2 s else msg_dw0,
  if s.msg_beat then msg_dw3 else msg_dw1 id s,
  not s.msg_beat,
  s.msg_beat,
)
