-- ===== src/Usb/Depacketizer/Timeout.antt =====
-- The recovery from a packet that breaks off.
use bsa_pcie_exerciser.Prelude.{
  ◌+◌, ◌≤◌, ◌<◌, ◌≡◌, ◌≢◌, refl, ap, Bool, true, false, ◌||◌, List, [], ◌∷◌, length, arith, run,
  run-inv, Bool-cases, inl, inr,
}
use bsa_pcie_exerciser.Usb.Streams.{Pack, WaitTimer}
use bsa_pcie_exerciser.Usb.Depacketizer.{
  State, idle, receive_header, copy, Depacketizer, Inputs, reset, cycle,
}

module _ (pack : Pack 2) (wait_timer : WaitTimer) where
  open pack use {Packing}
  open wait_timer use {Timing, left, cycles}

  is_idle : State → Bool
  is_idle idle = true
  is_idle receive_header = false
  is_idle copy = false

  -- Whether a run passes through IDLE, its end included.
  unfoldable pub rests : Depacketizer Packing Timing → List Inputs → Bool
  unfolding is_idle
  rests s [] = is_idle s.state
  rests s (i ∷ is) = is_idle s.state || rests (cycle pack wait_timer s i) is

  elapses :
      (s : Depacketizer Packing Timing) (i : Inputs)
      → s.state ≢ idle
      → (cycle pack wait_timer s i).state ≢ idle
      → left (cycle pack wait_timer s i).timer + 1 ≡ left s.timer
  unfolding cycle
  elapses s i h g = ground (arith, wait_timer.left_step s.timer true, wait_timer.done_lem s.timer)

  bounded :
      (s : Depacketizer Packing Timing) (i : Inputs)
      → left s.timer ≤ cycles
      → left (cycle pack wait_timer s i).timer ≤ cycles
  unfolding cycle
  bounded s i h =
      ground (arith, wait_timer.left_step s.timer true, wait_timer.left_step s.timer false)

  rests_now :
      (s : Depacketizer Packing Timing) (is : List Inputs)
      → is_idle s.state ≡ true
      → rests s is ≡ true
  unfolding rests
  rests_now s [] h = h
  rests_now s (i ∷ is) h = rw h refl

  busy_ends :
      (s : Depacketizer Packing Timing) (is : List Inputs)
      → left s.timer < length is
      → rests s is ≡ true
  unfolding rests
  busy_ends s [] h = absurd (omega arith)
  busy_ends s (i ∷ is) h = elim (Bool-cases (is_idle s.state)) [
    | inl now ↦ rw now refl
    | inr busy ↦ elim (Bool-cases (is_idle (cycle pack wait_timer s i).state)) [
      | inl next ↦ rw busy (rests_now (cycle pack wait_timer s i) is next)
      | inr still ↦ rw busy (
          busy_ends (cycle pack wait_timer s i) is (
            omega (
              arith,
              elapses s i (λ e. unfold is_idle in cc (ap is_idle e))
                  (λ e. unfold is_idle in cc (ap is_idle e)),
            )))
    ]
  ]

  -- Whatever arrives and however the crossbar stalls, after any run from reset the depacketizer comes to
  -- rest within as many cycles as the timer has and one more.
  pub run-rests :
      (before is : List Inputs)
      → cycles < length is
      → rests (run (cycle pack wait_timer) (reset pack wait_timer) before) is ≡ true
  run-rests before is h =
      busy_ends (run (cycle pack wait_timer) (reset pack wait_timer) before) is (
        omega (
          arith,
          run-inv (cycle pack wait_timer) (λ s. left s.timer ≤ cycles) bounded
              (reset pack wait_timer) before (omega (arith, wait_timer.left_start)),
        ))
