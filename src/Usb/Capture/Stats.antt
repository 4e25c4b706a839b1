-- ===== src/Usb/Capture/Stats.antt =====
-- The counters of the capture engine.
use bsa_pcie_exerciser.Prelude.{
  ℕ, subst, ◌+◌, ◌-◌, ◌≤◌, ◌<◌, ◌^◌, ◌≡◌, refl, false, List, [], ◌∷◌, arith, run, length, b2n,
}
use bsa_pcie_exerciser.Usb.Capture.{
  Capture, Inputs, step, reset, tap_of, last_beat, Tap, on_clear, on_first, on_beat, on_last,
}

-- The packets that end on a run.
unfoldable pub ended : List Inputs → ℕ
ended [] = 0
ended (i ∷ is) = b2n (last_beat i (tap_of i)) + ended is

abbrev pub NoClear : List Inputs → Type 0
NoClear [] = Unit {0}
NoClear (i ∷ is) = (i.clear_stats ≡ false) × NoClear is

record Counts (n : ℕ) (s : Capture) : Type 0 where
  sum : s.packets_captured + s.packets_dropped ≡ n
  cut : s.packets_truncated ≤ s.packets_captured

step_on :
    (s : Capture) (i : Inputs) (t : Tap) (n : ℕ)
    → i.clear_stats ≡ false
    → Counts n s
    → n < 2 ^ 32 - 1
    → Counts
        (b2n (last_beat i t) + n)
        (on_clear i t (on_last i t s (on_beat i t s (on_first i t s s))))
unfolding on_clear on_last on_beat on_first
step_on s i t n c h l = ground arith

step-Counts :
    (s : Capture) (i : Inputs) (n : ℕ)
    → i.clear_stats ≡ false
    → Counts n s
    → n < 2 ^ 32 - 1
    → Counts (b2n (last_beat i (tap_of i)) + n) (step s i)
unfolding step
step-Counts s i n c h l = step_on s i (tap_of i) n c h l

run_on :
    (s : Capture) (is : List Inputs) (n : ℕ)
    → NoClear is
    → Counts n s
    → n + length is < 2 ^ 32
    → Counts (ended is + n) (run step s is)
unfolding run ended
run_on s [] n q c h = subst (λ k. Counts k s) {y = 0 + n} (omega arith) c
run_on s (i ∷ is) n (q, qs) c h =
    subst (λ k. Counts k (run step (step s i) is)) (omega arith)
      (run_on (step s i) is (b2n (last_beat i (tap_of i)) + n) qs
        (step-Counts s i n q c (omega arith)) (ground arith))

-- A run of fewer than 2 ^ 32 cycles from reset, without `clear_stats`: the packets captured and the
-- packets dropped together are the packets whose last beat the run has seen, and no more packets
-- are counted as truncated than as captured.
pub run_counts :
    (is : List Inputs)
    → NoClear is
    → length is < 2 ^ 32
    → ((run step reset is).packets_captured + (run step reset is).packets_dropped ≡ ended is)
      × ((run step reset is).packets_truncated ≤ (run step reset is).packets_captured)
run_counts is q h =
    let c = run_on reset is 0 q (record { sum = refl; cut = omega arith }) (omega arith) in
    (omega (arith, c.sum), c.cut)
