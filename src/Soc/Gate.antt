-- ===== src/Soc/Gate.antt =====
-- Address translation while the host has not enabled it.
use bsa_pcie_exerciser.Prelude.{
  ◌≡◌, refl, ap, ◌∙◌, Bool, true, false, ◌&&◌, if◌then◌else◌, List, [], ◌∷◌, arith, run,
}
use bsa_pcie_exerciser.Dma
use bsa_pcie_exerciser.Ats
use bsa_pcie_exerciser.Registers
use bsa_pcie_exerciser.Registers.Interface
use bsa_pcie_exerciser.Soc.{Soc, reset, regs_inputs, step, ats_enable, ats_inputs, dma_inputs}
use bsa_pcie_exerciser.Soc.Signals.{Inputs}

-- The configuration space does not enable translation in any cycle of a run.
abbrev pub Disabled : Soc → List Inputs → Type 0
Disabled s [] = ats_enable s ≡ false
Disabled s (i ∷ is) = (ats_enable s ≡ false) × Disabled (step s i) is

pub record Quiet (s : Soc) : Type 0 where
  pub engine : s.ats.engine.state ≡ Ats.Engine.idle
  pub cache : s.ats.atc.valid ≡ false

and_false : (b : Bool) → (b && false) ≡ false
and_false true = refl
and_false false = refl

engine-quiet :
    (e : Ats.Engine.Engine) (k : Ats.Engine.Inputs)
    → e.state ≡ Ats.Engine.idle
    → k.trigger ≡ false
    → (Ats.Engine.step e k).state ≡ Ats.Engine.idle
unfolding Ats.Engine.step
engine-quiet e k h t = ground arith

cache-quiet :
    (c : Ats.Atc.Atc) (k : Ats.Atc.Inputs)
    → c.valid ≡ false
    → k.store ≡ false
    → (Ats.Atc.step c k).valid ≡ false
unfolding Ats.Atc.step
cache-quiet c k v t = ground arith

step-Quiet : (s : Soc) (i : Inputs) → ats_enable s ≡ false → Quiet s → Quiet (step s i)
unfolding step Ats.System.step
step-Quiet s i d q = record {
  engine = engine-quiet s.ats.engine _ q.engine (
      unfold Ats.System.engine_inputs ats_inputs in
      ap (λ b. Registers.ats_trigger s.regs (regs_inputs s i) && b) d
      ∙ and_false (Registers.ats_trigger s.regs (regs_inputs s i)));
  cache = cache-quiet s.ats.atc _ q.cache (
      unfold Ats.System.atc_inputs Ats.Engine.result_we in
      ap (λ st. Ats.Engine.is_store st && s.ats.engine.success) q.engine);
}

run-Quiet :
    (s : Soc) (is : List Inputs)
    → Disabled s is
    → Quiet s
    → Quiet (run step s is) × (ats_enable (run step s is) ≡ false)
unfolding run
run-Quiet s [] d q = (q, d)
run-Quiet s (i ∷ is) d q = run-Quiet (step s i) is d.1 (step-Quiet s i d.0 q)

-- As long as the host has not enabled address translation, whatever software writes to the registers and
-- whatever invalidations arrive: after any run from reset the request engine rests, the cache is empty,
-- and the DMA engine uses its address untranslated.
pub run-untranslated :
    (is : List Inputs) (i : Inputs)
    → Disabled reset is
    → let s = run step reset is in
      (s.ats.engine.state ≡ Ats.Engine.idle)
      × (s.ats.atc.valid ≡ false)
      × (Dma.Engine.effective_addr s.dma (dma_inputs s i) ≡ s.dma.current_addr)
run-untranslated is i d =
    let s = run step reset is in
    let (q, off) = run-Quiet reset is d (record { engine = refl; cache = refl }) in
    (
      q.engine,
      q.cache,
      unfold Dma.Engine.effective_addr dma_inputs in
          ap
            (λ b.
              if ((Interface.dma_control s.regs).use_atc && b) && s.ats.atc.lookup_hit
              then s.ats.atc.lookup_output
              else s.dma.current_addr)
            off
          ∙ rw (and_false (Interface.dma_control s.regs).use_atc) refl,
    )
