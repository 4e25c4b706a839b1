-- ===== src/Intx/Handshake.antt =====
-- The messages to the PHY.
use bsa_pcie_exerciser.Prelude.{
  ℕ, suc, ◌≤◌, ◌≡◌, refl, Bool, true, false, ◌&&◌, ◌||◌, not, if◌then◌else◌, List, [], ◌∷◌, ◌++◌,
  arith, run, length, Bool-cases, inl, inr,
}
use bsa_pcie_exerciser.Intx.{State, idle, request, Intx, Inputs, step, reset, source_valid}

-- The levels that the PHY takes on a run.
unfoldable pub levels : Intx → List Inputs → List Bool
levels s [] = []
levels s (i ∷ is) =
    (if source_valid s && i.source_ready then s.target_state ∷ [] else []) ++ levels (step s i) is

-- Levels of which each differs from the one before, the first one from `b`.
unfoldable pub alternates : Bool → List Bool → Bool
alternates b [] = true
alternates b (l ∷ ls) = ((l && not b) || (not l && b)) && alternates l ls

-- The last level, or `b` if there is none.
unfoldable pub final : Bool → List Bool → Bool
final b [] = b
final b (l ∷ ls) = final l ls

record Inv (s : Intx) : Type 0 where
  differs : s.state ≡ request → s.target_state ≡ not s.current_state

step-Inv : (s : Intx) (i : Inputs) → Inv s → Inv (step s i)
unfolding step
step-Inv s i v = ground arith

step_taken :
    (s : Intx) (i : Inputs)
    → Inv s
    → (source_valid s && i.source_ready) ≡ true
    → (s.target_state ≡ not s.current_state) × ((step s i).current_state ≡ s.target_state)
unfolding step source_valid
step_taken s i v h = ground arith

step_kept :
    (s : Intx) (i : Inputs)
    → (source_valid s && i.source_ready) ≡ false
    → (step s i).current_state ≡ s.current_state
unfolding step source_valid
step_kept s i h = ground arith

run-alternates :
    (s : Intx) (is : List Inputs)
    → Inv s
    → (alternates s.current_state (levels s is) ≡ true)
      × (final s.current_state (levels s is) ≡ (run step s is).current_state)
unfolding run levels alternates final
run-alternates s [] v = (refl, refl)
run-alternates s (i ∷ is) v =
    let rest = run-alternates (step s i) is (step-Inv s i v) in
    elim (Bool-cases (source_valid s && i.source_ready)) [
      | inl taken ↦
          let (t, c) = step_taken s i v taken in ground (arith, taken, t, c, rest.0, rest.1)
      | inr kept ↦ ground (arith, kept, step_kept s i kept, rest.0, rest.1)
    ]

-- On every run from reset, however the desired level moves and the PHY stalls, the levels that the
-- PHY takes alternate, beginning with an assertion, and the last one is the level that is reported
-- as pending.
pub levels-alternates :
    (is : List Inputs)
    → (alternates false (levels reset is) ≡ true)
      × (final false (levels reset is) ≡ (run step reset is).current_state)
levels-alternates is = run-alternates reset is (ground arith)

-- The desired level stays, and the PHY is ready.
pub record Held (b : Bool) (i : Inputs) : Type 0 where
  pub level : i.intx_assert ≡ b
  pub ready : i.source_ready ≡ true

abbrev pub AllHeld : Bool → List Inputs → Type 0
AllHeld b [] = Unit {0}
AllHeld b (i ∷ is) = Held b i × AllHeld b is

-- How far the module is from rest at level `b`.
distance : Bool → State → Intx → ℕ
distance b idle s = if (b && s.current_state) || (not b && not s.current_state) then 0 else 2
distance b request s = if (b && s.target_state) || (not b && not s.target_state) then 1 else 3

step_closer :
    (b : Bool) (s : Intx) (i : Inputs) (n : ℕ)
    → Held b i
    → distance b s.state s ≤ suc n
    → distance b (step s i).state (step s i) ≤ n
unfolding step distance
step_closer b s i n q h = ground arith

rest_at :
    (b : Bool) (s : Intx) → distance b s.state s ≤ 0 → (s.state ≡ idle) × (s.current_state ≡ b)
unfolding distance
rest_at b s h = ground arith

run_closer :
    (b : Bool) (s : Intx) (is : List Inputs)
    → AllHeld b is
    → distance b s.state s ≤ length is
    → ((run step s is).state ≡ idle) × ((run step s is).current_state ≡ b)
unfolding run
run_closer b s [] q h = rest_at b s h
run_closer b s (i ∷ is) (q, qs) h =
    run_closer b (step s i) is qs (step_closer b s i (length is) q h)

distance-le : (b : Bool) (s : Intx) → distance b s.state s ≤ 3
unfolding distance
distance-le b s = ground arith

-- From any state, a level that is held for three cycles or more, with the PHY ready, is reported as
-- pending at their end, and the module is at rest.
pub run-settles :
    (b : Bool) (s : Intx) (is : List Inputs)
    → AllHeld b is
    → 3 ≤ length is
    → ((run step s is).state ≡ idle) × ((run step s is).current_state ≡ b)
run-settles b s is q h = run_closer b s is q (omega (arith, distance-le b s))
