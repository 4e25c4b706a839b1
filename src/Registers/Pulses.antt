-- ===== src/Registers/Pulses.antt =====
-- How often a trigger pulses.
use bsa_pcie_exerciser.Prelude.{
  ℕ, ◌+◌, ◌≤◌, ◌≡◌, refl, Bool, true, false, ◌&&◌, not, List, [], ◌∷◌, arith, b2n,
}
use bsa_pcie_exerciser.Registers.{Registers, Inputs, reset, step}
use bsa_pcie_exerciser.Registers.Edges.{
  Trigger, msi, dma, ats, trigger_bit, control, prev, busy, fires, armed, writes, armed-step,
  prev-step, fires-armed,
}

module _ (t : Trigger) where
  unfoldable pub pulses : Registers → List Inputs → ℕ
  pulses s [] = 0
  pulses s (i ∷ is) = b2n (fires t s i) + pulses (step s i) is

  -- A write that is taken, with the trigger bit set.
  unfoldable pub starts : Registers → Inputs → Bool
  starts s i = writes t s i && trigger_bit t i.dat_w

  unfoldable pub started : Registers → List Inputs → ℕ
  unfolding starts
  started s [] = 0
  started s (i ∷ is) = b2n (starts s i) + started (step s i) is

  -- No write that is taken has the trigger bit set; or every one has.
  unfoldable pub unstarted : Registers → List Inputs → Bool
  unfolding starts
  unstarted s [] = true
  unstarted s (i ∷ is) = not (starts s i) && unstarted (step s i) is

  unfoldable pub only_starts : Registers → List Inputs → Bool
  only_starts s [] = true
  only_starts s (i ∷ is) =
      not (writes t s i && not (trigger_bit t i.dat_w)) && only_starts (step s i) is

  never_idle :
      (s : Registers) (is : List Inputs)
      → (armed t s && not (prev t s)) ≡ false
      → unstarted s is ≡ true
      → pulses s is ≡ 0
  unfolding pulses unstarted starts
  never_idle s [] h u = refl
  never_idle s (i ∷ is) h u =
      grind (arith, fires-armed t s i, armed-step t s i, prev-step t s i, never_idle (step s i) is)

  never_stuck :
      (s : Registers) (is : List Inputs)
      → armed t s ≡ true
      → prev t s ≡ true
      → only_starts s is ≡ true
      → pulses s is ≡ 0
  unfolding pulses only_starts
  never_stuck s [] h p u = refl
  never_stuck s (i ∷ is) h p u =
      grind (arith, fires-armed t s i, armed-step t s i, prev-step t s i, never_stuck (step s i) is)

  counted :
      (s : Registers) (is : List Inputs)
      → pulses s is ≤ started s is + b2n (armed t s && not (prev t s))
  unfolding pulses started starts
  counted s [] = omega arith
  counted s (i ∷ is) =
      grind (arith, fires-armed t s i, armed-step t s i, prev-step t s i, counted (step s i) is)

  -- Every pulse is due to a write of its own: on a run from reset there are at most as many pulses
  -- as writes of the control register with the trigger bit set.
  pub pulses-counted : (is : List Inputs) → pulses reset is ≤ started reset is
  pulses-counted is =
      let idle : armed t reset ≡ false = unarmed t in grind (arith, counted reset is)
    where
      unarmed : (t : Trigger) → armed t reset ≡ false
      unarmed msi = unfold armed trigger_bit control in refl
      unarmed dma = unfold armed trigger_bit control in refl
      unarmed ats = unfold armed trigger_bit control in refl

  -- When the trigger bit is clear and a write sets it, and the engine is not busy in the next cycle,
  -- the trigger pulses exactly once until the bit is written again as set.
  pub pulses-once :
      (s : Registers) (i j : Inputs) (ks : List Inputs)
      → armed t s ≡ false
      → starts s i ≡ true
      → busy t j ≡ false
      → unstarted (step s i) (j ∷ ks) ≡ true
      → pulses s (i ∷ j ∷ ks) ≡ 1
  unfolding pulses starts unstarted
  pulses-once s i j ks a w free u =
      let s1 = step s i in
      grind (
        arith,
        fires-armed t s i,
        armed-step t s i,
        prev-step t s i,
        fires-armed t s1 j,
        armed-step t s1 j,
        prev-step t s1 j,
        never_idle (step s1 j) ks,
      )

  -- When the engine is busy in that cycle instead, the trigger is lost, and later ones with it: it
  -- does not pulse until the bit is written as clear, however often it is written as set.
  pub pulses-lost :
      (s : Registers) (i j : Inputs) (ks : List Inputs)
      → armed t s ≡ false
      → starts s i ≡ true
      → busy t j ≡ true
      → only_starts (step s i) (j ∷ ks) ≡ true
      → pulses s (i ∷ j ∷ ks) ≡ 0
  unfolding pulses starts only_starts
  pulses-lost s i j ks a w full u =
      let s1 = step s i in
      grind (
        arith,
        fires-armed t s i,
        armed-step t s i,
        prev-step t s i,
        fires-armed t s1 j,
        armed-step t s1 j,
        prev-step t s1 j,
        never_stuck (step s1 j) ks,
      )
