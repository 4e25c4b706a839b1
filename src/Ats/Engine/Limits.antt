-- ===== src/Ats/Engine/Limits.antt =====
-- What holds of the request engine after any number of cycles, and when it gives up.
use bsa_pcie_exerciser.Prelude.{
  ℕ, suc, ◌+◌, ◌≤◌, ◌<◌, ◌^◌, ◌%◌, ◌≡◌, ltb, ◌==◌, if◌then◌else◌, passes, passes-at, refl, true,
  false, not, List, [], ◌∷◌, ◌++◌, arith, run, run-inv, length, bit, ◌⊎◌,
}
use bsa_pcie_exerciser.Ats.Engine.{
  idle, send_req, wait_cpl, parse_cpl, store, Engine, Inputs, step, range_of, s_field, reset,
  ats_tag_base,
}
use bsa_pcie_exerciser.Ats.Engine.Answer.{Silent}

-- The tag stays in the reserved range, the counter in its width, and a result is presented as a
-- success only with the U bit clear.
pub record Inv (s : Engine) : Type 0 where
  pub tag_low : ats_tag_base ≤ s.current_tag
  pub tag_high : s.current_tag ≤ 0xff
  pub counter : s.timeout_counter < 2 ^ 24
  pub range : s.range_size < 2 ^ 32
  pub verdict : s.state ≡ store → s.success ≡ not (bit s.cpl_data 4)
  pub fresh :
      (s.state ≡ send_req) ⊎ (s.state ≡ wait_cpl) ⊎ (s.state ≡ parse_cpl) → s.success ≡ false

reset-Inv : Inv reset
reset-Inv = ground arith

step-Inv : (s : Engine) (i : Inputs) → Inv s → Inv (step s i)
unfolding step
step-Inv s i h = ground arith

-- On every run from reset the tag of a request lies in the reserved range 0xF0 to 0xFF, the
-- counter and the range keep their widths, a presented result is a success exactly if the U bit of
-- its data is clear, and no earlier success shows while a request is under way.
pub run-Inv : (is : List Inputs) → Inv (run step reset is)
run-Inv is = run-inv step Inv step-Inv reset is reset-Inv

-- The engine counts the silent cycles that it waits.
step_wait :
    (s : Engine) (i : Inputs)
    → s.state ≡ wait_cpl
    → i.retry ≡ false
    → i.sink_valid ≡ false
    → s.timeout_counter < 0xff_ffff
    → ((step s i).state ≡ wait_cpl) × ((step s i).timeout_counter ≡ suc s.timeout_counter)
unfolding step
step_wait s i h r v c = ground arith

step_expired :
    (s : Engine) (i : Inputs)
    → s.state ≡ wait_cpl
    → i.retry ≡ false
    → s.timeout_counter ≡ 0xff_ffff
    → ((step s i).state ≡ idle) × ((step s i).success ≡ false)
unfolding step
step_expired s i h r c = ground arith

-- An engine that waits, with the timeout counter at `k`, gives up after exactly
-- 2 ^ 24 - k cycles without a completion or a retry: until then it waits, and then it is idle,
-- without success.
pub run-timeout :
    (s : Engine) (is : List Inputs) (last : Inputs)
    → s.state ≡ wait_cpl
    → Silent is
    → last.retry ≡ false
    → s.timeout_counter + length is ≡ 0xff_ffff
    → ((run step s is).state ≡ wait_cpl)
      × ((run step s (is ++ (last ∷ []))).state ≡ idle)
      × ((run step s (is ++ (last ∷ []))).success ≡ false)
unfolding run
run-timeout s [] last h si r c = let e = step_expired s last h r (omega arith) in (h, e.0, e.1)
run-timeout s (i ∷ is) last h (q, v, si) r c =
    let w = step_wait s i h q v (omega arith) in
    run-timeout (step s i) is last w.0 si r (omega (arith, w.1))

range_table :
    passes
      (λ n. if ltb n 20 then 2 ^ (n + 12) % 2 ^ 32 == 2 ^ (n + 12) else 2 ^ (n + 12) % 2 ^ 32 == 0)
      32
    ≡ true
unfolding passes
range_table = refl

-- The 32-bit range register holds 2 ^ (S + 12) for a size field S below 20; from 20 on the power
-- does not fit, and the register holds 0.
pub range_of-cases :
    (d : ℕ)
    → (s_field d < 20 → range_of d ≡ 2 ^ (s_field d + 12)) × (20 ≤ s_field d → range_of d ≡ 0)
unfolding range_of
range_of-cases d =
    let h = passes-at 32 _ (s_field d) range_table (unfold s_field in omega arith) in
    (λ lt. ground (arith), λ le. ground arith)
