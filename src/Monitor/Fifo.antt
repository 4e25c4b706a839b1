-- ===== src/Monitor/Fifo.antt =====
-- The buffer of captures against a bounded queue.
use bsa_pcie_exerciser.Prelude.{
  ℕ, zero, suc, ◌+◌, ◌-◌, ◌≤◌, ◌<◌, ◌≡◌, ◌≢◌, ◌⊎◌, refl, ap, sym, ap₂, ◌∙◌, Bool, true, false, not,
  ◌&&◌, if◌then◌else◌, List, [], ◌∷◌, ◌++◌, arith, drop,
}
use mathlib.Core.List.{append-nil}
use bsa_pcie_exerciser.Monitor.{
  Monitor, Inputs, Capture, step, next_ptr, write, do_capture, txn_consumed, capture_entry, reset,
  advance,
}

-- `wr` is `n` places behind `rd` in a ring of `depth` places.
abbrev pub Behind : ℕ → ℕ → ℕ → ℕ → Type 0
Behind depth rd n wr = (wr ≡ rd + n) ⊎ (wr + depth ≡ rd + n)

module _ (depth : ℕ) where
  pub record Inv (s : Monitor) : Type 0 where
    pub wr_in : s.wr_ptr < depth
    pub rd_in : s.rd_ptr < depth
    pub count_in : s.count ≤ depth
    pub ring : Behind depth s.rd_ptr s.count s.wr_ptr
    pub word_in : s.word_idx ≤ 4
    pub some_left : s.count ≡ 0 → s.word_idx ≡ 0

  reset-Inv : 0 < depth → Inv reset
  reset-Inv h = ground arith

  capture_room : (s : Monitor) (i : Inputs) → do_capture depth s i ≡ true → s.count ≢ depth
  unfolding do_capture
  capture_room s i h = ground arith

  consume_last : (s : Monitor) (i : Inputs) → txn_consumed depth s i ≡ true → s.word_idx ≡ 4
  unfolding txn_consumed
  consume_last s i h = ground arith

  advance_some :
      (s : Monitor) (i : Inputs)
      → advance depth s i ≡ true
      → txn_consumed depth s i ≡ false
      → (s.word_idx ≢ 4) × ((s.count ≢ 0) ⊎ (s.word_idx ≢ 0))
  unfolding txn_consumed
  advance_some s i h n = ground arith

  pub step-Inv : (s : Monitor) (i : Inputs) → Inv s → Inv (step depth s i)
  unfolding step next_ptr
  step-Inv s i v = ground (arith, capture_room s i, consume_last s i, advance_some s i)

  -- The `n` captures from place `h` on, round the ring.
  unfoldable pub window : (ℕ → Capture) → ℕ → ℕ → List Capture
  window mem h zero = []
  window mem h (suc n) = mem h ∷ window mem (next_ptr depth h) n

  -- The captures that are waiting to be read, oldest first.
  unfoldable pub contents : Monitor → List Capture
  contents s = window s.mem s.rd_ptr s.count

  next_in : (h : ℕ) → h < depth → next_ptr depth h < depth
  unfolding next_ptr
  next_in h l = ground arith

  next-Behind :
      (h n wr : ℕ)
      → h < depth
      → wr < depth
      → n < depth
      → Behind depth h (suc n) wr
      → Behind depth (next_ptr depth h) n wr
  unfolding next_ptr
  next-Behind h n wr l w m b = ground arith

  Behind-ne : (h n wr : ℕ) → suc n < depth → Behind depth h (suc n) wr → h ≢ wr
  Behind-ne h n wr l b = omega arith

  write_at : (mem : ℕ → Capture) (p : ℕ) (e : Capture) (k : ℕ) → k ≡ p → write mem p e k ≡ e
  unfolding write
  write_at mem p e k h = ground arith

  write_off : (mem : ℕ → Capture) (p : ℕ) (e : Capture) (k : ℕ) → k ≢ p → write mem p e k ≡ mem k
  unfolding write
  write_off mem p e k h = ground arith

  -- Writing just behind a window extends it.
  window-write :
      (mem : ℕ → Capture) (e : Capture) (h n wr : ℕ)
      → h < depth
      → wr < depth
      → n < depth
      → Behind depth h n wr
      → window (write mem wr e) h (suc n) ≡ window mem h n ++ (e ∷ [])
  unfolding window
  window-write mem e h zero wr l w m b = ap (λ c. c ∷ []) (write_at mem wr e h (omega arith))
  window-write mem e h (suc n) wr l w m b =
      ap₂ (λ c cs. c ∷ cs) (write_off mem wr e h (Behind-ne h n wr m b))
        (window-write mem e (next_ptr depth h) n wr (next_in h l) w (omega arith)
          (next-Behind h n wr l w (omega arith) b))

  -- What one cycle does to the queue.
  unfoldable pub spec_step : Bool → Bool → Capture → Bool → List Capture → List Capture
  spec_step clear captures e consumes q =
      if clear then [] else (if consumes then drop 1 q else q) ++ (if captures then e ∷ [] else [])

  -- The cases of a cycle.
  cycle :
      (mem : ℕ → Capture) (e : Capture) (h n wr : ℕ) (clear captures consumes : Bool)
      → h < depth
      → wr < depth
      → Behind depth h n wr
      → (captures ≡ true → n < depth)
      → (consumes ≡ true → 0 < n)
      → window
          (if captures then write mem wr e else mem)
          (if clear then 0 else if consumes then next_ptr depth h else h)
          (if clear
            then 0
            else if captures && not consumes
            then n + 1
            else if not captures && consumes
            then n - 1
            else n)
        ≡ spec_step clear captures e consumes (window mem h n)
  unfolding window spec_step
  cycle mem e h n wr true captures consumes l w b room some = refl
  cycle mem e h n wr false false false l w b room some = sym (append-nil _)
  cycle mem e h zero wr false false true l w b room some = absurd (ground (arith, some refl))
  cycle mem e h (suc n) wr false false true l w b room some =
      ap (window mem (next_ptr depth h)) {y = n} (omega arith) ∙ sym (append-nil _)
  cycle mem e h n wr false true false l w b room some =
      ap (window (write mem wr e) h) {y = suc n} (omega arith)
      ∙ window-write mem e h n wr l w (room refl) b
  cycle mem e h zero wr false true true l w b room some = absurd (ground (arith, some refl))
  cycle mem e h (suc n) wr false true true l w b room some =
      window-write mem e (next_ptr depth h) n wr (next_in h l) w (omega (arith, room refl))
        (next-Behind h n wr l w (omega (arith, room refl)) b)

  consume_some : (s : Monitor) (i : Inputs) → Inv s → txn_consumed depth s i ≡ true → 0 < s.count
  unfolding txn_consumed
  consume_some s i v h = ground arith

  capture_lt : (s : Monitor) (i : Inputs) → Inv s → do_capture depth s i ≡ true → s.count < depth
  capture_lt s i v h = omega (arith, capture_room s i h)

  -- On a monitor that satisfies the invariant a cycle empties the queue on `clear`; else it removes
  -- the oldest capture where its last word is read, and appends the capture of the cycle, if one is
  -- made, both in one cycle if need be.
  pub contents-step :
      (s : Monitor) (i : Inputs)
      → Inv s
      → contents (step depth s i)
        ≡ spec_step i.clear
            (do_capture depth s i)
            (capture_entry s i)
            (txn_consumed depth s i)
            (contents s)
  unfolding contents step
  contents-step s i v =
      cycle s.mem (capture_entry s i) s.rd_ptr s.count s.wr_ptr i.clear (do_capture depth s i)
        (txn_consumed depth s i) v.rd_in v.wr_in v.ring (capture_lt s i v) (consume_some s i v)
