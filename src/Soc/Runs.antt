-- ===== src/Soc/Runs.antt =====
-- What a run of the SoC is for its registers.
use bsa_pcie_exerciser.Prelude.{◌≡◌, refl, List, [], ◌∷◌, run}
use bsa_pcie_exerciser.Registers
use bsa_pcie_exerciser.Soc.{Soc, step, regs_inputs}
use bsa_pcie_exerciser.Soc.Signals.{Inputs}

-- The inputs of the registers on a run.
unfoldable pub regs_trace : Soc → List Inputs → List Registers.Inputs
regs_trace s [] = []
regs_trace s (i ∷ is) = regs_inputs s i ∷ regs_trace (step s i) is

pub regs-run :
    (s : Soc) (is : List Inputs)
    → (run step s is).regs ≡ run Registers.step s.regs (regs_trace s is)
unfolding run regs_trace step
regs-run s [] = refl
regs-run s (i ∷ is) = regs-run (step s i) is
