-- ===== src/Ats/Engine/Answer.antt =====
-- What becomes of a translation request, over any number of cycles on which the port stalls.
use bsa_pcie_exerciser.Prelude.{
  ℕ, ◌+◌, ◌≤◌, ◌<◌, ◌≡◌, ◌∙◌, refl, ap, true, false, not, List, [], ◌∷◌, ◌++◌, arith, run,
  run-append, length, bit, ◌||◌, ◌&&◌, Bool, subst,
}
use bsa_pcie_exerciser.Ats.Engine.{
  idle, send_req, wait_cpl, Engine, Inputs, step, in_flight, result_we, trans_addr, range_of,
  permissions_of,
}

-- Cycles on which the port does not take the request.
abbrev pub Stalls : List Inputs → Type 0
Stalls [] = Unit {0}
Stalls (i ∷ is) = (i.source_ready ≡ false) × Stalls is

-- Cycles on which neither a completion nor a retry arrives.
abbrev pub Silent : List Inputs → Type 0
Silent [] = Unit {0}
Silent (i ∷ is) = (i.retry ≡ false) × (i.sink_valid ≡ false) × Silent is

-- The last beat of a completion without error.
abbrev pub Completes : Inputs → Type 0
Completes i =
    (i.retry ≡ false)
    × (i.sink_valid ≡ true)
    × (i.sink_err ≡ false)
    × (i.sink_last ≡ true)
    × (i.sink_end ≡ true)

step_stall : (s : Engine) (i : Inputs) → s.state ≡ send_req → i.source_ready ≡ false → step s i ≡ s
unfolding step
step_stall s i h r = ground arith

run_stalls : (s : Engine) (is : List Inputs) → s.state ≡ send_req → Stalls is → run step s is ≡ s
unfolding run
run_stalls s [] h st = refl
run_stalls s (i ∷ is) h (r, st) =
    ap (λ t. run step t is) (step_stall s i h r) ∙ run_stalls s is h st

-- What the waiting state keeps: the request latched, and the counter.
record Waiting (s t : Engine) (n : ℕ) : Type 0 where
  state : t.state ≡ wait_cpl
  priv : t.current_priv ≡ s.current_priv
  counter : t.timeout_counter ≡ s.timeout_counter + n

step_silent :
    (s : Engine) (i : Inputs)
    → s.state ≡ wait_cpl
    → i.retry ≡ false
    → i.sink_valid ≡ false
    → s.timeout_counter < 0xff_ffff
    → Waiting s (step s i) 1
unfolding step
step_silent s i h r v c = ground arith

run-Silent :
    (s : Engine) (is : List Inputs)
    → s.state ≡ wait_cpl
    → Silent is
    → s.timeout_counter + length is ≤ 0xff_ffff
    → Waiting s (run step s is) (length is)
unfolding run
run-Silent s [] h st c = record { state = h; priv = refl; counter = omega arith }
run-Silent s (i ∷ is) h (r, v, st) c =
    let w = step_silent s i h r v (omega arith) in
    let w' = run-Silent (step s i) is w.state st (omega (arith, w.counter)) in
    record {
      state = w'.state;
      priv = w'.priv ∙ w.priv;
      counter = omega (arith, w'.counter, w.counter);
    }

-- The state in which the result of completion data `d` is presented: the engine signals a result,
-- successful if the U bit is clear, and then the address, range, permissions and cacheability are
-- those of the data.
pub record Answered (priv : Bool) (d : ℕ) (t : Engine) : Type 0 where
  pub presented : result_we t ≡ true
  pub flying : in_flight t ≡ true
  pub successful : t.success ≡ not (bit d 4)
  pub address : bit d 4 ≡ false → t.translated_addr ≡ trans_addr d
  pub range : bit d 4 ≡ false → t.range_size ≡ range_of d
  pub rights : bit d 4 ≡ false → t.permissions ≡ permissions_of priv d
  pub cached : t.cacheable ≡ (not (bit d 4) && (bit d 0 || bit d 1))

step_completion :
    (s : Engine) (c p : Inputs)
    → s.state ≡ wait_cpl
    → s.timeout_counter < 0xff_ffff
    → Completes c
    → Answered s.current_priv c.sink_dat (step (step s c) p)
unfolding step in_flight result_we
step_completion s c p h n k = ground arith

-- The request is latched, and after the port takes it the engine waits with a fresh counter.
record Latched (i : Inputs) (t : Engine) : Type 0 where
  state : t.state ≡ send_req
  priv : t.current_priv ≡ i.privileged

step_trigger : (s : Engine) (i : Inputs) → s.state ≡ idle → i.trigger ≡ true → Latched i (step s i)
unfolding step
step_trigger s i h t = ground arith

step_ready :
    (s : Engine) (a : Inputs)
    → s.state ≡ send_req
    → a.source_ready ≡ true
    → Waiting (record s { timeout_counter = 0 }) (step s a) 0
unfolding step
step_ready s a h r = ground arith

-- From an idle engine: a trigger, any number of cycles on which the port stalls, one on which it
-- takes the request, fewer than 2 ^ 24 - 1 cycles without a completion or a retry, and the last
-- beat of a completion without error. One cycle later the engine presents the result of that beat:
-- a success exactly if the U bit is clear, with the page-aligned address, range, permissions and
-- cacheability of the data.
pub request-answer :
    (s : Engine) (i : Inputs) (stalls : List Inputs) (a : Inputs) (waits : List Inputs)
    (c p : Inputs)
    → s.state ≡ idle
    → i.trigger ≡ true
    → Stalls stalls
    → a.source_ready ≡ true
    → Silent waits
    → length waits < 0xff_ffff
    → Completes c
    → Answered i.privileged c.sink_dat (run step s (i ∷ (stalls ++ (a ∷ (waits ++ (c ∷ p ∷ []))))))
unfolding run
request-answer s i stalls a waits c p h t st r si n k =
    let l = step_trigger s i h t in
    let s₁ = step s i in
    let w = step_ready s₁ a l.state r in
    let s₂ = step s₁ a in
    let v = run-Silent s₂ waits w.state si (omega (arith, w.counter)) in
    let s₃ = run step s₂ waits in
    let done = step_completion s₃ c p v.state (omega (arith, v.counter, w.counter)) k in
    let same : s₃.current_priv ≡ i.privileged = v.priv ∙ (w.priv ∙ l.priv) in
    rw
      (
        run-append step s₁ stalls (a ∷ (waits ++ (c ∷ p ∷ []))),
        run_stalls s₁ stalls l.state st,
        run-append step s₂ waits (c ∷ p ∷ []),
      )
      (subst (λ b. Answered b c.sink_dat (step (step s₃ c) p)) same done)
