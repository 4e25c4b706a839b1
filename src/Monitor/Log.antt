-- ===== src/Monitor/Log.antt =====
-- A run on which the overflow flag stays clear: everything that arrives is captured.
use bsa_pcie_exerciser.Prelude.{ℕ, ◌≡◌, false, if◌then◌else◌, List, [], ◌∷◌, ◌++◌, arith, run}
use bsa_pcie_exerciser.Monitor.{
  Monitor, Inputs, Capture, step, txn_arriving, do_capture, txn_dropped, capture_entry,
}

-- No cycle of the list clears.
abbrev pub NoClear : List Inputs → Type 0
NoClear [] = Unit {0}
NoClear (i ∷ is) = (i.clear ≡ false) × NoClear is

module _ (depth : ℕ) where
  -- What arrives on a run.
  unfoldable pub arrivals : Monitor → List Inputs → List Capture
  arrivals s [] = []
  arrivals s (i ∷ is) =
      (if txn_arriving i then capture_entry s i ∷ [] else []) ++ arrivals (step depth s i) is

  pub overflow_stays :
      (s : Monitor) (i : Inputs)
      → i.clear ≡ false
      → (step depth s i).overflow ≡ false
      → (s.overflow ≡ false) × (do_capture depth s i ≡ txn_arriving i)
  unfolding step txn_dropped do_capture
  overflow_stays s i c h = ground arith

  pub overflow_run :
      (s : Monitor) (is : List Inputs)
      → NoClear is
      → (run (step depth) s is).overflow ≡ false
      → s.overflow ≡ false
  unfolding run
  overflow_run s [] n h = h
  overflow_run s (i ∷ is) (c, n) h = (overflow_stays s i c (overflow_run (step depth s i) is n h)).0
