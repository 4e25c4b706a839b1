-- ===== src/Dma/Finish.antt =====
-- The end of a transfer to the host.
use bsa_pcie_exerciser.Prelude.{
  ℕ, suc, ◌+◌, ◌-◌, ◌*◌, ◌≤◌, ◌<◌, ◌≡◌, inl, inr, Bool, true, List, [], ◌∷◌, arith, run, length,
  zero-or_positive,
}
use bsa_pcie_exerciser.Dma.Engine.{
  State, idle, setup, load_data, issue_wr, complete, issue_rd, wait_cpl, Engine, Inputs, access,
  stores, address_buffer,
}
use bsa_pcie_exerciser.Dma.Engine
use bsa_pcie_exerciser.Dma.Channel.{Channel, step}
use bsa_pcie_exerciser.Dma.Write.{
  Inv, Steady, AllSteady, Starts, step-Inv, start-Inv, size, due, under_way,
}

-- The cycles that a transfer still takes at most, if the port never stalls.
work : Engine → State → ℕ
work e setup = 4 * e.remaining_len + 2
work e load_data = 4 * (e.remaining_len - 8 * e.beat_count) + 1
work e issue_wr = 4 * (e.remaining_len - 8 * e.beat_count)
work e complete = 1
work e _ = 0

step_works :
    (sim : Bool) (mem : ℕ → ℕ) (s : Channel) (i : Inputs)
    → Steady sim i
    → i.source_ready ≡ true
    → Inv mem s
    → 0 < work s.engine s.engine.state
    → work (step sim s i).engine (step sim s i).engine.state < work s.engine s.engine.state
unfolding step Engine.step work size due under_way
step_works sim mem s i q h v p = ground arith

at_rest :
    (mem : ℕ → ℕ) (s : Channel)
    → Inv mem s
    → work s.engine s.engine.state ≤ 0
    → s.engine.state ≡ idle
unfolding work size due under_way
at_rest mem s v h = ground arith

-- A port that is always ready is steady for either buffer.
steady : (sim : Bool) (i : Inputs) → Steady true i → Steady sim i
steady sim i q = ground arith

step_idle :
    (sim : Bool) (s : Channel) (i : Inputs)
    → Steady true i
    → s.engine.state ≡ idle
    → work (step sim s i).engine (step sim s i).engine.state ≡ 0
unfolding step Engine.step work
step_idle sim s i q h = ground arith

step_closer :
    (sim : Bool) (mem : ℕ → ℕ) (s : Channel) (i : Inputs) (n : ℕ)
    → Steady true i
    → Inv mem s
    → work s.engine s.engine.state ≤ suc n
    → work (step sim s i).engine (step sim s i).engine.state ≤ n
step_closer sim mem s i n q v h = elim (zero-or_positive (work s.engine s.engine.state)) [
  | inl more ↦ omega (arith, step_works sim mem s i (steady sim i q) q.ready v more)
  | inr none_left ↦ omega (arith, step_idle sim s i q (at_rest mem s v (omega arith)))
]

run_idle :
    (sim : Bool) (mem : ℕ → ℕ) (s : Channel) (is : List Inputs)
    → AllSteady true is
    → Inv mem s
    → work s.engine s.engine.state ≤ length is
    → (run (step sim) s is).engine.state ≡ idle
unfolding run
run_idle sim mem s [] q v h = at_rest mem s v h
run_idle sim mem s (i ∷ is) (q, qs) v h =
    run_idle sim mem (step sim s i) is qs (step-Inv sim mem s i (steady sim i q) v)
      (step_closer sim mem s i (length is) q v h)

started :
    (sim : Bool) (s : Channel) (i : Inputs)
    → Starts s i
    → work (step sim s i).engine (step sim s i).engine.state ≡ 4 * i.length + 2
unfolding step Engine.step work
started sim s i b = ground arith

-- A write to the host of a positive multiple of 4 bytes, started on an idle engine, ends: with a port that
-- is always ready, no further trigger, and in no cycle a translation from the cache in use (`use_atc` with
-- a hit), the engine is idle again after any number of cycles that is at least four for each byte and two
-- more.
pub write-finishes :
    (sim : Bool) (s : Channel) (i : Inputs) (is : List Inputs)
    → Starts s i
    → AllSteady true is
    → 4 * i.length + 2 ≤ length is
    → (run (step sim) (step sim s i) is).engine.state ≡ idle
write-finishes sim s i is b q h =
    run_idle sim s.port.mem (step sim s i) is q (start-Inv sim s i b)
      (omega (arith, started sim s i b))
