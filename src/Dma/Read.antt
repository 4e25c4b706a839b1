-- ===== src/Dma/Read.antt =====
-- The requests and the stored words of a transfer from the host.
use bsa_pcie_exerciser.Prelude.{
  ℕ, ◌+◌, ◌-◌, ◌/◌, ◌%◌, ◌^◌, ◌<◌, ◌≡◌, ◌⊎◌, ◌≢◌, inl, inr, refl, Bool, true, false, ◌&&◌, not,
  ◌==◌, ltb, if◌then◌else◌, List, [], ◌∷◌, Option, none, some, arith, run, Bool-cases,
}
use bsa_pcie_exerciser.Dma.Engine.{
  State, idle, setup, load_data, issue_wr, complete, issue_rd, wait_cpl, Engine, Inputs, Source,
  access, source, stores, address_buffer,
}
use bsa_pcie_exerciser.Dma.Engine
use bsa_pcie_exerciser.Dma.Channel.{Channel, step, present, sent}

-- The host address of the next request and the bytes that have not been asked for.
pub record Ask : Type 0 where
  pub addr : ℕ
  pub left : ℕ

unfoldable pub part : ℕ → ℕ
part left = if ltb 128 left then 128 else left

-- One request against what is due; `none` refuses it.
unfoldable pub accept : Ask → Source → Option Ask
unfolding part
accept r o =
    if not (r.left == 0)
      && not o.we
      && o.first
      && o.last
      && o.adr == r.addr
      && o.len == part r.left / 4
    then some (record { addr = (r.addr + part r.left) % 2 ^ 64; left = r.left - part r.left })
    else none

unfoldable pub accept_all : Ask → List Source → Option Ask
accept_all r [] = some r
accept_all r (o ∷ os) = elim (accept r o) [ none ↦ none | some r' ↦ accept_all r' os ]

unfoldable pub open_request : State → Bool
open_request issue_rd = true
open_request wait_cpl = true
open_request _ = false

-- The state of a transfer, given what is still to be asked for.
record Fits (r : Ask) (e : Engine) : Type 0 where
  dir : e.current_dir ≡ false
  not_load : e.state ≢ load_data
  not_wr : e.state ≢ issue_wr
  words : e.remaining_len % 4 ≡ 0
  bound : e.remaining_len < 2 ^ 32
  some_left : (e.state ≡ setup) ⊎ (open_request e.state ≡ true) → 0 < e.remaining_len
  bytes : open_request e.state ≡ true → e.tlp_len_bytes ≡ part e.remaining_len
  dwords : open_request e.state ≡ true → e.tlp_len_dwords ≡ part e.remaining_len / 4
  before_addr : (e.state ≡ setup) ⊎ (e.state ≡ issue_rd) → r.addr ≡ e.current_addr
  before_left : (e.state ≡ setup) ⊎ (e.state ≡ issue_rd) → r.left ≡ e.remaining_len
  after_addr : e.state ≡ wait_cpl → r.addr ≡ (e.current_addr + e.tlp_len_bytes) % 2 ^ 64
  after_left : e.state ≡ wait_cpl → r.left ≡ e.remaining_len - e.tlp_len_bytes
  end_left : (e.state ≡ complete) ⊎ (e.state ≡ idle) → e.status ≡ 0 → r.left ≡ 0

-- A cycle without a new trigger and without a translated address.
pub record Steady (i : Inputs) : Type 0 where
  pub no_trigger : i.trigger ≡ false
  pub untranslated : (i.use_atc && i.atc_hit) ≡ false

step_silent :
    (sim : Bool) (s : Channel) (i : Inputs) (r : Ask)
    → Steady i
    → Fits r s.engine
    → ((present s i).valid && i.source_ready) ≡ false
    → Fits r (step sim s i).engine
unfolding step Engine.step present source part open_request
step_silent sim s i r q v h = ground arith

after : Ask → Ask
after r = record { addr = (r.addr + part r.left) % 2 ^ 64; left = r.left - part r.left }

step_accepted :
    (s : Channel) (i : Inputs) (r : Ask)
    → Steady i
    → Fits r s.engine
    → ((present s i).valid && i.source_ready) ≡ true
    → accept r (present s i) ≡ some (after r)
unfolding present source part open_request accept after
step_accepted s i r q v h = ground arith

step_sent :
    (sim : Bool) (s : Channel) (i : Inputs) (r : Ask)
    → Steady i
    → Fits r s.engine
    → ((present s i).valid && i.source_ready) ≡ true
    → Fits (after r) (step sim s i).engine
unfolding step Engine.step present source part open_request after
step_sent sim s i r q v h = ground arith

abbrev pub AllSteady : List Inputs → Type 0
AllSteady [] = Unit {0}
AllSteady (i ∷ is) = Steady i × AllSteady is

run_accepted :
    (sim : Bool) (s : Channel) (is : List Inputs) (r : Ask)
    → AllSteady is
    → Fits r s.engine
    → (r' : Ask) × (accept_all r (sent sim s is) ≡ some r') × Fits r' (run (step sim) s is).engine
unfolding run sent accept_all
run_accepted sim s [] r q v = (r, refl, v)
run_accepted sim s (i ∷ is) r (q, qs) v =
    elim (Bool-cases ((present s i).valid && i.source_ready)) [
      | inl out ↦
          rw (out, step_accepted s i r q v out, accept_all)
            (run_accepted sim (step sim s i) is (after r) qs (step_sent sim s i r q v out))
      | inr quiet ↦
          rw quiet (run_accepted sim (step sim s i) is r qs (step_silent sim s i r q v quiet))
    ]

-- The trigger of a read from the host: a length that is a multiple of 4 and not 0.
pub record Starts (s : Channel) (i : Inputs) : Type 0 where
  pub free : s.engine.state ≡ idle
  pub go : i.trigger ≡ true
  pub reads : i.direction ≡ false
  pub dwords : i.length % 4 ≡ 0
  pub positive : 0 < i.length
  pub bound : i.length < 2 ^ 32

abbrev pub whole : Inputs → Ask
whole i = record { addr = i.bus_addr; left = i.length }

start-Fits :
    (sim : Bool) (s : Channel) (i : Inputs) → Starts s i → Fits (whole i) (step sim s i).engine
unfolding step Engine.step open_request part
start-Fits sim s i b = ground arith

-- A read from the host of a positive multiple of 4 bytes, with no translation and no further
-- trigger, under any stalls and completions: the requests that the master port takes are reads of
-- one beat at consecutive host addresses, each for 128 bytes or for what is left if that is less.
-- When the engine is idle again with the status 0, the whole length has been asked for.
pub read-accepted :
    (sim : Bool) (s : Channel) (i : Inputs) (is : List Inputs)
    → Starts s i
    → AllSteady is
    → let final = run (step sim) (step sim s i) is in
      (r : Ask) × (accept_all (whole i) (sent sim (step sim s i) is) ≡ some r)
      × (final.engine.state ≡ idle → final.engine.status ≡ 0 → r.left ≡ 0)
read-accepted sim s i is b q =
    let (r, e, v) = run_accepted sim (step sim s i) is (whole i) q (start-Fits sim s i b) in
    (r, e, (λ rest. v.end_left (inr rest)))
