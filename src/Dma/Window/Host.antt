-- ===== src/Dma/Window/Host.antt =====
-- The host's accesses to the buffer.
use bsa_pcie_exerciser.Prelude.{
  ℕ, ◌-◌, ◌%◌, ◌^◌, ◌<◌, ◌≡◌, ◌∙◌, refl, sym, ap, subst, Bool, Bool-cases, ◌⊎◌, inl, inr, ==_iff,
  true, false, ◌==◌, if◌then◌else◌, slice, arith,
}
use bsa_pcie_exerciser.Prelude.Memory.{store, merge, lane}
use bsa_pcie_exerciser.Dma.Window.{
  Window, Inputs, idle, write, read_addr, complete, step, port, b_adr, b_we, dispatch, in_idle,
  in_write, poisons, write_be, selected, cpl_data,
}

-- A beat that begins a write, and one that begins a read.
pub record Writes (i : Inputs) : Type 0 where
  pub valid : i.valid ≡ true
  pub first : i.first ≡ true
  pub we : i.we ≡ true

pub record Reads (i : Inputs) : Type 0 where
  pub valid : i.valid ≡ true
  pub first : i.first ≡ true
  pub we : i.we ≡ false

step-write :
    (v : Bool) (s : Window) (w : Inputs)
    → s.state ≡ idle
    → Writes w
    → ((step v s w).state ≡ write)
      × ((step v s w).mem
          ≡ store (slice w.adr 3 11) (if w.poison_mode then 0 else write_be w) w.dat s.mem)
unfolding step port b_adr b_we dispatch in_idle poisons
step-write v s w h ws = ground arith

step_gap :
    (v : Bool) (s : Window) (g : Inputs)
    → s.state ≡ write
    → g.valid ≡ false
    → ((step v s g).state ≡ idle) × ((step v s g).mem ≡ store s.qword_idx 0 g.dat s.mem)
unfolding step port b_adr b_we dispatch in_write poisons
step_gap v s g h n = ground arith

step_ask :
    (v : Bool) (s : Window) (r : Inputs)
    → s.state ≡ idle
    → Reads r
    → ((step v s r).state ≡ read_addr)
      × ((step v s r).qword_idx ≡ slice r.adr 3 11)
      × ((step v s r).req_len ≡ r.len)
      × ((step v s r).req_adr ≡ r.adr % 2 ^ 32)
      × ((step v s r).poisoned_read ≡ r.poison_mode)
      × ((step v s r).poison_event ≡ r.poison_mode)
      × ((step v s r).mem ≡ store (slice r.adr 3 11) 0 r.dat s.mem)
unfolding step port b_adr b_we dispatch in_idle poisons
step_ask v s r h rs = ground arith

step_fetch :
    (v : Bool) (s : Window) (c d : Inputs)
    → s.state ≡ read_addr
    → let t = step v (step v s c) d in
      (t.state ≡ complete)
      × (t.read_word ≡ (if v then store s.qword_idx 0 c.dat s.mem s.qword_idx else s.b_dat_r))
      × (t.req_len ≡ s.req_len)
      × (t.req_adr ≡ s.req_adr)
      × (t.poisoned_read ≡ s.poisoned_read)
unfolding step port b_adr b_we dispatch poisons
step_fetch v s c d h = ground arith

-- Every word of the memory has 64 bits.
abbrev pub Words : (ℕ → ℕ) → Type 0
Words mem = (n : ℕ) → mem n < 2 ^ 64

pub lane_small : (be dat old k : ℕ) → lane be dat old k < 2 ^ 8
unfolding lane
lane_small be dat old k = ground arith

merge_small : (be dat old : ℕ) → merge be dat old < 2 ^ 64
unfolding merge
merge_small be dat old = omega (
  arith,
  lane_small be dat old 0,
  lane_small be dat old 1,
  lane_small be dat old 2,
  lane_small be dat old 3,
  lane_small be dat old 4,
  lane_small be dat old 5,
  lane_small be dat old 6,
  lane_small be dat old 7,
)

merge_none : (dat old : ℕ) → old < 2 ^ 64 → merge 0 dat old ≡ old
unfolding merge lane
merge_none dat old small = omega arith

store-Words : (at be dat : ℕ) (mem : ℕ → ℕ) → Words mem → Words (store at be dat mem)
unfolding store
store-Words at be dat mem small n = ground (arith, small n, merge_small be dat (mem at))

store_at :
    (at be dat : ℕ) (mem : ℕ → ℕ) (n : ℕ)
    → store at be dat mem n ≡ (if n == at then merge be dat (mem at) else mem n)
unfolding store
store_at at be dat mem n = refl

store_none : (at dat : ℕ) (mem : ℕ → ℕ) → Words mem → (n : ℕ) → store at 0 dat mem n ≡ mem n
store_none at dat mem small n = store_at at 0 dat mem n ∙ same (Bool-cases (n == at))
  where
    same :
        ((n == at) ≡ true) ⊎ ((n == at) ≡ false)
        → (if n == at then merge 0 dat (mem at) else mem n) ≡ mem n
    same (inl here) =
        rw here (merge_none dat (mem at) (small at) ∙ ap mem (sym ((==_iff n at).0 here)))
    same (inr other) = rw other refl

-- What a cycle without a write leaves.
kept :
    (at dat : ℕ) (mem mem' : ℕ → ℕ)
    → Words mem
    → mem' ≡ store at 0 dat mem
    → Words mem' × ((n : ℕ) → mem' n ≡ mem n)
kept at dat mem mem' small e = (
  subst Words (sym e) (store-Words at 0 dat mem small),
  λ n. ap (λ m. m n) e ∙ store_none at dat mem small n,
)

answer :
    (t : Window) {q : Bool} {len adr word : ℕ}
    → t.poisoned_read ≡ q
    → t.req_len ≡ len
    → t.req_adr ≡ adr
    → t.read_word ≡ word
    → cpl_data t ≡ (if q then 2 ^ 64 - 1 else selected len adr word)
unfolding cpl_data
answer t p l a w = rw (p, l, a, w) refl

-- In the simulated variant a host that begins a write of one beat to a window at rest and, after a
-- cycle without a beat, a read gets a completion two cycles later. It carries the QWORD at the
-- address of the read, the half that the address selects for one DWORD, in which the enabled bytes
-- of the write have replaced the old ones, if it went to the same QWORD and not in poison mode. A
-- read that begins in poison mode gets all ones, and only such a read is reported.
pub write-read_window :
    (s : Window) (w g r c d : Inputs)
    → s.state ≡ idle
    → Words s.mem
    → Writes w
    → g.valid ≡ false
    → Reads r
    → let u = step true (step true (step true s w) g) r in
      let t = step true (step true u c) d in
      let at = slice w.adr 3 11 in
      let word =
        if slice r.adr 3 11 == at
        then merge (if w.poison_mode then 0 else write_be w) w.dat (s.mem at)
        else s.mem (slice r.adr 3 11) in
      (t.state ≡ complete)
      × (u.poison_event ≡ r.poison_mode)
      × (cpl_data t ≡ (if r.poison_mode then 2 ^ 64 - 1 else selected r.len (r.adr % 2 ^ 32) word))
write-read_window s w g r c d h small ws gap rs =
    let (st1, m1) = step-write true s w h ws in
    let (st2, m2) = step_gap true (step true s w) g st1 gap in
    let (st3, q, l, a, p, ev, m3) = step_ask true (step true (step true s w) g) r st2 rs in
    let u = step true (step true (step true s w) g) r in
    let (st5, word, l5, a5, p5) = step_fetch true u c d st3 in
    let small1 = subst Words (sym m1) (store-Words _ _ _ s.mem small) in
    let (small2, same2) = kept _ g.dat _ _ small1 m2 in
    let (small3, same3) = kept _ r.dat _ _ small2 m3 in
    let at = slice r.adr 3 11 in
    let found =
      word
      ∙ (store_none u.qword_idx c.dat u.mem small3 u.qword_idx
          ∙ (ap u.mem q
              ∙ (same3 at ∙ (same2 at ∙ (ap (λ m. m at) m1 ∙ store_at _ _ w.dat s.mem at))))) in
    (st5, ev, answer (step true (step true u c) d) (p5 ∙ p) (l5 ∙ l) (a5 ∙ a) found)

-- In the synthesised variant nothing enables port B for a read: the completion of a read carries the
-- word that the port held before it, whatever the buffer holds at its address.
pub read-stale :
    (s : Window) (r c d : Inputs)
    → s.state ≡ idle
    → Reads r
    → r.poison_mode ≡ false
    → let t = step false (step false (step false s r) c) d in
      (t.state ≡ complete) × (cpl_data t ≡ selected r.len (r.adr % 2 ^ 32) s.b_dat_r)
read-stale s r c d h rs sound =
    let (st3, q, l, a, p, ev, m3) = step_ask false s r h rs in
    let (st5, word, l5, a5, p5) = step_fetch false (step false s r) c d st3 in
    (
      st5,
      answer (step false (step false (step false s r) c) d) (p5 ∙ (p ∙ sound)) (l5 ∙ l) (a5 ∙ a)
          (word ∙ held s r h rs),
    )
  where
    held :
        (s : Window) (r : Inputs) → s.state ≡ idle → Reads r → (step false s r).b_dat_r ≡ s.b_dat_r
    held s r h rs = unfold step port b_adr b_we dispatch in_idle in ground arith
