-- ===== src/Msix/Trigger.antt =====
-- The software trigger, src/bsa_pcie_exerciser/gateware/msix/controller.py, the class
-- LitePCIeMSITrigger; the CSR's storage is an input.
use bsa_pcie_exerciser.Prelude.{
  ℕ, ◌+◌, ◌≤◌, Bool, false, ◌&&◌, not, List, [], ◌∷◌, bit, slice, b2n, arith,
}

pub record Trigger : Type 0 where
  pub trigger_prev : Bool

-- The word of the control CSR.
pub record Inputs : Type 0 where
  pub control : ℕ

abbrev pub reset : Trigger
reset = record { trigger_prev = false }

unfoldable pub trigger_vector : Inputs → ℕ
trigger_vector i = slice i.control 0 11

unfoldable pub trigger_valid : Trigger → Inputs → Bool
trigger_valid s i = bit i.control 15 && not s.trigger_prev

-- One clock cycle.
unfoldable pub step : Trigger → Inputs → Trigger
step s i = record { trigger_prev = bit i.control 15 }

unfoldable pub pulses : Trigger → List Inputs → ℕ
unfolding trigger_valid
pulses s [] = 0
pulses s (i ∷ is) = b2n (trigger_valid s i) + pulses (step s i) is

-- The cycles in which the bit falls.
unfoldable pub falls : Trigger → List Inputs → ℕ
falls s [] = 0
falls s (i ∷ is) = b2n (s.trigger_prev && not (bit i.control 15)) + falls (step s i) is

-- A trigger needs the bit cleared before: at most one pulse more than the bit falls.
pub pulses-falls :
    (s : Trigger) (is : List Inputs) → pulses s is + b2n s.trigger_prev ≤ falls s is + 1
unfolding pulses falls step
pulses-falls s [] = ground arith
pulses-falls s (i ∷ is) = ground (arith, pulses-falls (step s i) is)
