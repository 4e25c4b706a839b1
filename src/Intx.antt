-- ===== src/Intx.antt =====
-- The INTx controller, src/bsa_pcie_exerciser/gateware/core/intx_controller.py.
pub mod Handshake
use bsa_pcie_exerciser.Prelude.{Bool, true, false, ◌&&◌, ◌||◌, not, if◌then◌else◌}

pub data State : Type 0 where
  idle request : State

-- The registers of the module.
pub record Intx : Type 0 where
  pub state : State
  pub current_state : Bool
  pub target_state : Bool

-- The desired level and the readiness of the PHY, in one cycle.
pub record Inputs : Type 0 where
  pub intx_assert : Bool
  pub source_ready : Bool

abbrev pub reset : Intx
reset = record { state = idle; current_state = false; target_state = false }

unfoldable pub state_change : Intx → Inputs → Bool
state_change s i = (i.intx_assert && not s.current_state) || (not i.intx_assert && s.current_state)

unfoldable pub dispatch : State → Intx → Inputs → Intx
unfolding state_change
dispatch idle s i =
    if state_change s i then record s { target_state = i.intx_assert; state = request } else s
dispatch request s i =
    if i.source_ready then record s { current_state = s.target_state; state = idle } else s

-- One clock cycle.
unfoldable pub step : Intx → Inputs → Intx
unfolding dispatch
step s i = dispatch s.state s i

-- The stream to the PHY, whose level is the target.
unfoldable pub busy : State → Bool
busy request = true
busy idle = false

unfoldable pub source_valid : Intx → Bool
unfolding busy
source_valid s = busy s.state
