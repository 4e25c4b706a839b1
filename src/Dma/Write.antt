-- ===== src/Dma/Write.antt =====
-- What the master port sees of a transfer to the host.
use bsa_pcie_exerciser.Prelude.{
  ℕ, ◌+◌, ◌-◌, ◌*◌, ◌/◌, ◌%◌, ◌^◌, ◌<◌, ◌≡◌, ◌⊎◌, ◌≢◌, inl, inr, refl, Bool, true, false, ◌&&◌,
  ◌||◌, not, ◌==◌, ltb, leb, if◌then◌else◌, List, [], ◌∷◌, Option, none, some, arith, run, slice,
  Bool-cases,
}
use bsa_pcie_exerciser.Dma.Engine.{
  State, idle, setup, load_data, issue_wr, complete, issue_rd, wait_cpl, Engine, Inputs, Source,
  access, source, stores, address_buffer,
}
use bsa_pcie_exerciser.Dma.Engine
use bsa_pcie_exerciser.Dma.Channel.{Channel, step, present, sent, port_step, write_word}

-- What is still to come of a transfer: the host address and the word offset of the TLP that is
-- due, the bytes that are left from there, and the beats of that TLP that have been seen.
pub record Expect : Type 0 where
  pub addr : ℕ
  pub word : ℕ
  pub left : ℕ
  pub seen : ℕ

unfoldable pub size : Expect → ℕ
size r = if ltb 128 r.left then 128 else r.left

eqb : Bool → Bool → Bool
eqb true b = b
eqb false b = not b

-- One beat against what is due; `none` refuses it.
unfoldable pub accept : (ℕ → ℕ) → Expect → Source → Option Expect
unfolding eqb size
accept mem r o =
    if r.left == 0 || not o.we
    then none
    else if not (o.adr == r.addr) || not (o.len == size r / 4)
    then none
    else if not (eqb o.first (r.seen == 0))
    then none
    else if not (eqb o.last (leb (size r) ((r.seen + 1) * 8)))
    then none
    else if not (o.dat == mem ((r.word + r.seen) % 2 ^ 11))
    then none
    else some (
        if o.last
        then record {
          addr = (r.addr + size r) % 2 ^ 64;
          word = (r.word + r.seen + 1) % 2 ^ 14;
          left = r.left - size r;
          seen = 0;
        }
        else record r { seen = r.seen + 1 })

unfoldable pub accept_all : (ℕ → ℕ) → Expect → List Source → Option Expect
accept_all mem r [] = some r
accept_all mem r (o ∷ os) = elim (accept mem r o) [ none ↦ none | some r' ↦ accept_all mem r' os ]

unfoldable pub under_way : State → Bool
under_way load_data = true
under_way issue_wr = true
under_way _ = false

unfoldable pub due : Engine → Expect
unfolding under_way
due e = record {
  addr = e.current_addr;
  word = e.current_offset;
  left = e.remaining_len;
  seen = if under_way e.state then e.beat_count else 0;
}

-- A cycle without a new trigger and without a translated address; in simulation the port is ready.
pub record Steady (simulation : Bool) (i : Inputs) : Type 0 where
  pub no_trigger : i.trigger ≡ false
  pub untranslated : (i.use_atc && i.atc_hit) ≡ false
  pub ready : (not simulation || i.source_ready) ≡ true

pub record Inv (mem : ℕ → ℕ) (s : Channel) : Type 0 where
  pub same : s.port.mem ≡ mem
  pub dir : s.engine.current_dir ≡ true
  pub not_rd : s.engine.state ≢ issue_rd
  pub not_cpl : s.engine.state ≢ wait_cpl
  pub words : s.engine.remaining_len % 4 ≡ 0
  pub bound : s.engine.remaining_len < 2 ^ 32
  pub some_left : s.engine.state ≡ setup → 0 < s.engine.remaining_len
  pub bytes : under_way s.engine.state ≡ true → s.engine.tlp_len_bytes ≡ size (due s.engine)
  pub dwords : under_way s.engine.state ≡ true → s.engine.tlp_len_dwords ≡ size (due s.engine) / 4
  pub inside : under_way s.engine.state ≡ true → s.engine.beat_count * 8 < size (due s.engine)
  pub read :
      s.engine.state ≡ issue_wr
      → s.port.a_dat_r ≡ mem ((s.engine.current_offset + s.engine.beat_count) % 2 ^ 11)
  pub done : (s.engine.state ≡ complete) ⊎ (s.engine.state ≡ idle) → s.engine.remaining_len ≡ 0
  pub good : (s.engine.state ≡ complete) ⊎ (s.engine.state ≡ idle) → s.engine.status ≡ 0

pub step-Inv :
    (sim : Bool) (mem : ℕ → ℕ) (s : Channel) (i : Inputs)
    → Steady sim i
    → Inv mem s
    → Inv mem (step sim s i)
unfolding step Engine.step port_step access stores address_buffer due size write_word under_way
step-Inv sim mem s i q v = ground arith

step_silent :
    (sim : Bool) (mem : ℕ → ℕ) (s : Channel) (i : Inputs)
    → Steady sim i
    → Inv mem s
    → ((present s i).valid && i.source_ready) ≡ false
    → due (step sim s i).engine ≡ due s.engine
unfolding step Engine.step due present source under_way
step_silent sim mem s i q v h = ground arith

step_sent :
    (sim : Bool) (mem : ℕ → ℕ) (s : Channel) (i : Inputs)
    → Steady sim i
    → Inv mem s
    → ((present s i).valid && i.source_ready) ≡ true
    → accept mem (due s.engine) (present s i) ≡ some (due (step sim s i).engine)
unfolding step Engine.step due present source accept under_way size
step_sent sim mem s i q v h = ground arith

abbrev pub AllSteady : Bool → List Inputs → Type 0
AllSteady sim [] = Unit {0}
AllSteady sim (i ∷ is) = Steady sim i × AllSteady sim is

run_accepted :
    (sim : Bool) (mem : ℕ → ℕ) (s : Channel) (is : List Inputs)
    → AllSteady sim is
    → Inv mem s
    → accept_all mem (due s.engine) (sent sim s is) ≡ some (due (run (step sim) s is).engine)
unfolding run sent accept_all
run_accepted sim mem s [] q v = refl
run_accepted sim mem s (i ∷ is) (q, qs) v =
    elim (Bool-cases ((present s i).valid && i.source_ready)) [
      | inl out ↦
          rw (out, step_sent sim mem s i q v out, accept_all)
            (run_accepted sim mem (step sim s i) is qs (step-Inv sim mem s i q v))
      | inr quiet ↦
          rw (quiet, ← step_silent sim mem s i q v quiet)
            (run_accepted sim mem (step sim s i) is qs (step-Inv sim mem s i q v))
    ]

pub run-Inv :
    (sim : Bool) (mem : ℕ → ℕ) (s : Channel) (is : List Inputs)
    → AllSteady sim is
    → Inv mem s
    → Inv mem (run (step sim) s is)
unfolding run
run-Inv sim mem s [] q v = v
run-Inv sim mem s (i ∷ is) (q, qs) v =
    run-Inv sim mem (step sim s i) is qs (step-Inv sim mem s i q v)

-- The trigger of a write to the host: a length that is a multiple of 4 and not 0.
pub record Starts (s : Channel) (i : Inputs) : Type 0 where
  pub free : s.engine.state ≡ idle
  pub go : i.trigger ≡ true
  pub writes : i.direction ≡ true
  pub dwords : i.length % 4 ≡ 0
  pub positive : 0 < i.length
  pub bound : i.length < 2 ^ 32

abbrev pub whole : Inputs → Expect
whole i = record { addr = i.bus_addr; word = slice i.offset 3 14; left = i.length; seen = 0 }

pub start-Inv : (sim : Bool) (s : Channel) (i : Inputs) → Starts s i → Inv s.port.mem (step sim s i)
unfolding step Engine.step port_step access stores address_buffer due size write_word under_way
start-Inv sim s i b = ground arith

start_due :
    (sim : Bool) (s : Channel) (i : Inputs) → Starts s i → due (step sim s i).engine ≡ whole i
unfolding step Engine.step due under_way
start_due sim s i b = ground arith

-- A write to the host of a positive multiple of 4 bytes, with no translation and no further
-- trigger, under any stalls with the XPM buffer and under none with the simulated one: the beats
-- that the master port takes are the words of the buffer in order from the word offset, in TLPs of
-- at most 128 bytes at consecutive host addresses, each with its length in DWORDs on every beat,
-- `first` on its first beat only and `last` on its last beat only. When the engine is idle again,
-- nothing is left to send and the status is 0.
pub write-accepted :
    (sim : Bool) (s : Channel) (i : Inputs) (is : List Inputs)
    → Starts s i
    → AllSteady sim is
    → let final = run (step sim) (step sim s i) is in
      (r : Expect) × (accept_all s.port.mem (whole i) (sent sim (step sim s i) is) ≡ some r)
      × (final.engine.state ≡ idle → (r.left ≡ 0) × (final.engine.status ≡ 0))
unfolding due
write-accepted sim s i is b q =
    let v = run-Inv sim s.port.mem (step sim s i) is q (start-Inv sim s i b) in
    (
      due (run (step sim) (step sim s i) is).engine,
      rw (← start_due sim s i b)
          (run_accepted sim s.port.mem (step sim s i) is q (start-Inv sim s i b)),
      (λ e. (v.done (inr e), v.good (inr e))),
    )
