-- ===== src/Dma/Store.antt =====
-- The words that a transfer from the host stores.
use bsa_pcie_exerciser.Prelude.{
  ℕ, ◌+◌, ◌%◌, ◌^◌, ◌<◌, ◌≡◌, ◌≢◌, inl, inr, refl, sym, ap₂, ◌∙◌, Bool, true, false, ◌&&◌, not,
  ◌==◌, ltb, if◌then◌else◌, List, [], ◌∷◌, ◌++◌, arith, run, slice, Bool-cases,
}
use bsa_pcie_exerciser.Dma.Engine.{
  State, idle, setup, load_data, issue_wr, complete, issue_rd, wait_cpl, Engine, Inputs, Source,
  access, source, stores, address_buffer,
}
use bsa_pcie_exerciser.Dma.Engine
use bsa_pcie_exerciser.Dma.Channel.{Channel, step, port_step, write_word}
use bsa_pcie_exerciser.Dma.Read.{Starts}

-- The completion data of a run: every beat without error that comes while the engine waits and has
-- not given up.
unfoldable pub arrives : Engine → Inputs → Bool
arrives e i = elim e.state [
  | wait_cpl ↦ ltb e.timeout_counter 0xff_ffff && i.sink_valid && not i.sink_err
  | _ ↦ false
]

unfoldable pub arrived : Engine → List Inputs → List ℕ
arrived e [] = []
arrived e (i ∷ is) = (if arrives e i then i.sink_dat ∷ [] else []) ++ arrived (Engine.step e i) is

-- A memory with words put at one place after the other; the offset has 14 bits and the buffer's
-- address 11.
put : ℕ → ℕ → (ℕ → ℕ) → ℕ → ℕ
put place w mem n = if n == place then w else mem n

unfoldable pub store_all : ℕ → List ℕ → (ℕ → ℕ) → ℕ → ℕ
unfolding put
store_all o [] mem = mem
store_all o (w ∷ ws) mem = store_all ((o + 1) % 2 ^ 14) ws (put (o % 2 ^ 11) w mem)

abbrev pub NoTrigger : List Inputs → Type 0
NoTrigger [] = Unit {0}
NoTrigger (i ∷ is) = (i.trigger ≡ false) × NoTrigger is

record Reading (e : Engine) : Type 0 where
  dir : e.current_dir ≡ false
  not_load : e.state ≢ load_data
  not_wr : e.state ≢ issue_wr
  counter : e.timeout_counter < 2 ^ 24

step-Reading : (e : Engine) (i : Inputs) → i.trigger ≡ false → Reading e → Reading (Engine.step e i)
unfolding Engine.step
step-Reading e i q v = ground arith

step_arrived :
    (sim : Bool) (s : Channel) (i : Inputs)
    → i.trigger ≡ false
    → Reading s.engine
    → arrives s.engine i ≡ true
    → ((step sim s i).engine.current_offset ≡ (s.engine.current_offset + 1) % 2 ^ 14)
      × ((step sim s i).port.mem ≡ put (s.engine.current_offset % 2 ^ 11) i.sink_dat s.port.mem)
unfolding step Engine.step arrives port_step access stores address_buffer write_word put
step_arrived sim s i q v h = ground arith

step_quiet :
    (sim : Bool) (s : Channel) (i : Inputs)
    → i.trigger ≡ false
    → Reading s.engine
    → arrives s.engine i ≡ false
    → ((step sim s i).engine.current_offset ≡ s.engine.current_offset)
      × ((step sim s i).port.mem ≡ s.port.mem)
unfolding step Engine.step arrives port_step access stores address_buffer write_word
step_quiet sim s i q v h = ground arith

store_new :
    (e : Engine) (i : Inputs) (is : List Inputs) (o : ℕ) (mem : ℕ → ℕ)
    → arrives e i ≡ true
    → store_all o (arrived e (i ∷ is)) mem
      ≡ store_all
          ((o + 1) % 2 ^ 14)
          (arrived (Engine.step e i) is)
          (put (o % 2 ^ 11) i.sink_dat mem)
unfolding arrived store_all
store_new e i is o mem h = rw h refl

store_old :
    (e : Engine) (i : Inputs) (is : List Inputs) (o : ℕ) (mem : ℕ → ℕ)
    → arrives e i ≡ false
    → store_all o (arrived e (i ∷ is)) mem ≡ store_all o (arrived (Engine.step e i) is) mem
unfolding arrived
store_old e i is o mem h = rw h refl

step_stored :
    (sim : Bool) (s : Channel) (i : Inputs) (is : List Inputs)
    → i.trigger ≡ false
    → Reading s.engine
    → store_all
        (step sim s i).engine.current_offset
        (arrived (Engine.step s.engine i) is)
        (step sim s i).port.mem
      ≡ store_all s.engine.current_offset (arrived s.engine (i ∷ is)) s.port.mem
step_stored sim s i is q v =
    let at = λ (o : ℕ) (m : ℕ → ℕ). store_all o (arrived (Engine.step s.engine i) is) m in
    elim (Bool-cases (arrives s.engine i)) [
      | inl new ↦
          let (o, m) = step_arrived sim s i q v new in
          ap₂ at o m ∙ sym (store_new s.engine i is s.engine.current_offset s.port.mem new)
      | inr old ↦
          let (o, m) = step_quiet sim s i q v old in
          ap₂ at o m ∙ sym (store_old s.engine i is s.engine.current_offset s.port.mem old)
    ]

run_stored :
    (sim : Bool) (s : Channel) (is : List Inputs)
    → NoTrigger is
    → Reading s.engine
    → (run (step sim) s is).port.mem
      ≡ store_all s.engine.current_offset (arrived s.engine is) s.port.mem
unfolding run arrived store_all step
run_stored sim s [] q v = refl
run_stored sim s (i ∷ is) (q, qs) v =
    run_stored sim (step sim s i) is qs (step-Reading s.engine i q v) ∙ step_stored sim s i is q v

start-Reading :
    (sim : Bool) (s : Channel) (i : Inputs)
    → Starts s i
    → s.engine.timeout_counter < 2 ^ 24
    → Reading (step sim s i).engine
      × ((step sim s i).engine.current_offset ≡ slice i.offset 3 14)
      × ((step sim s i).port.mem ≡ s.port.mem)
unfolding step Engine.step port_step access stores address_buffer write_word
start-Reading sim s i b c = ground arith

-- A read from the host of a positive multiple of 4 bytes, started on an idle engine and without a further
-- trigger, under any stalls, errors and completions: the buffer ends as it was, but for the data of the
-- completions, each 64-bit word of them in its order of arrival at the next place from the word offset
-- on. The timeout counter is within its 24 bits at the start.
pub read-stored :
    (sim : Bool) (s : Channel) (i : Inputs) (is : List Inputs)
    → Starts s i
    → s.engine.timeout_counter < 2 ^ 24
    → NoTrigger is
    → (run (step sim) (step sim s i) is).port.mem
      ≡ store_all (slice i.offset 3 14) (arrived (step sim s i).engine is) s.port.mem
read-stored sim s i is b c q =
    let (v, o, m) = start-Reading sim s i b c in
    run_stored sim (step sim s i) is q v
    ∙ ap₂ (λ at mem. store_all at (arrived (step sim s i).engine is) mem) o m
