-- ===== src/Monitor/Reads.antt =====
-- The words that the read port gives, one after the other.
use bsa_pcie_exerciser.Prelude.{
  ℕ, zero, suc, ◌+◌, ◌≡◌, ◌∙◌, ap₂, take, refl, sym, ap, Bool, true, false, ◌&&◌, not, ◌==◌,
  if◌then◌else◌, List, [], ◌∷◌, ◌++◌, arith, run, drop, inl, inr,
}
use mathlib.Core.List.{append-nil, append_assoc}
use bsa_pcie_exerciser.Monitor.{
  Monitor, Inputs, Capture, step, txn_arriving, do_capture, txn_consumed, advance, fifo_empty,
  fifo_data, word_of, capture_entry, next_ptr,
}
use bsa_pcie_exerciser.Monitor.Fifo.{Inv, step-Inv, contents, contents-step, spec_step, window}
use bsa_pcie_exerciser.Monitor.Log.{NoClear, arrivals, overflow_stays, overflow_run}
use bsa_pcie_exerciser.Monitor.Words.{words, words-append, Holds, moves, first}

module _ (depth : ℕ) where
  -- The words that wait to be read: those of the oldest capture from the place on, then the others.
  unfoldable pub left : Monitor → List ℕ
  left s = drop s.word_idx (words (contents depth s))

  -- What a cycle captures.
  unfoldable pub captured : Monitor → Inputs → List Capture
  captured s i = if do_capture depth s i then capture_entry s i ∷ [] else []

  -- An empty monitor, or one with an oldest capture.
  held :
      (s : Monitor)
      → Inv depth s
      → Holds (s.mem s.rd_ptr) (contents depth s) s.word_idx (fifo_empty s)
  unfolding contents fifo_empty window
  held s v = go s.count refl
    where
      go :
          (n : ℕ)
          → s.count ≡ n
          → Holds
              (s.mem s.rd_ptr)
              (window depth s.mem s.rd_ptr s.count)
              s.word_idx
              (s.count == 0 && s.word_idx == 0)
      go zero e =
          inl (ap (window depth s.mem s.rd_ptr) e, v.some_left e, ground (arith, v.some_left e))
      go (suc n) e = inr (
        window depth s.mem (next_ptr depth s.rd_ptr) n,
        ap (window depth s.mem s.rd_ptr) e,
        v.word_in,
        ground arith,
      )

  idx-step :
      (s : Monitor) (i : Inputs)
      → i.clear ≡ false
      → (step depth s i).word_idx ≡ (
          if i.fifo_read && not (fifo_empty s)
          then if s.word_idx == 4 then 0 else s.word_idx + 1
          else s.word_idx)
  unfolding step txn_consumed advance
  idx-step s i c = ground arith

  queue-step :
      (s : Monitor) (i : Inputs)
      → Inv depth s
      → i.clear ≡ false
      → contents depth (step depth s i)
        ≡ (if (i.fifo_read && not (fifo_empty s)) && s.word_idx == 4
            then drop 1 (contents depth s)
            else contents depth s)
          ++ captured s i
  unfolding captured
  queue-step s i v c =
      contents-step depth s i v ∙ (unfold spec_step txn_consumed advance in rw c refl)

  -- One cycle without `clear`: a read takes the first word, and a capture appends five.
  pub left-step :
      (s : Monitor) (i : Inputs)
      → Inv depth s
      → i.clear ≡ false
      → left (step depth s i)
        ≡ (if i.fifo_read then drop 1 (left s) else left s) ++ words (captured s i)
  unfolding left
  left-step s i v c =
      ap₂ (λ k q. drop k (words q)) (idx-step s i c) (queue-step s i v c)
      ∙ moves (s.mem s.rd_ptr) (contents depth s) (captured s i) s.word_idx i.fifo_read
          (fifo_empty s) (held s v)

  -- The read port gives the first of these words.
  pub data-first :
      (s : Monitor)
      → Inv depth s
      → s.rd_adr ≡ s.rd_ptr
      → (if fifo_empty s then [] else fifo_data s ∷ []) ≡ take 1 (left s)
  unfolding left fifo_data
  data-first s v a =
      let at : fifo_data s ≡ word_of (s.mem s.rd_ptr) s.word_idx =
        ap (λ k. word_of (s.mem k) s.word_idx) a in
      ap (λ w. if fifo_empty s then [] else w ∷ []) at
      ∙ first (s.mem s.rd_ptr) (contents depth s) s.word_idx (fifo_empty s) (held s v)

  -- What a host that reads takes, cycle by cycle.
  unfoldable pub read_words : Monitor → List Inputs → List ℕ
  read_words s [] = []
  read_words s (i ∷ is) =
      (if i.fifo_read && not (fifo_empty s) then fifo_data s ∷ [] else [])
      ++ read_words (step depth s i) is

-- No two cycles one after the other read; `before` says whether the cycle before the list did.
abbrev pub Spaced : Bool → List Inputs → Type 0
Spaced before [] = Unit {0}
Spaced before (i ∷ is) = ((before && i.fifo_read) ≡ false) × Spaced i.fifo_read is

module _ (depth : ℕ) where
  settled-step :
      (s : Monitor) (i : Inputs)
      → i.clear ≡ false
      → i.fifo_read ≡ false
      → (step depth s i).rd_adr ≡ (step depth s i).rd_ptr
  unfolding step txn_consumed advance
  settled-step s i c r = ground arith

  took :
      (read empty : Bool) (w : ℕ) (ws : List ℕ)
      → (read ≡ true → (if empty then [] else w ∷ []) ≡ take 1 ws)
      → (if read && not empty then w ∷ [] else []) ++ (if read then drop 1 ws else ws) ≡ ws
  took false empty w ws h = refl
  took true true w [] h = refl
  took true false w [] h = h refl
  took true true w (x ∷ ws) h = ap (λ l. l ++ ws) (h refl)
  took true false w (x ∷ ws) h = ap (λ l. l ++ ws) (h refl)

  -- One cycle without `clear` after which nothing was dropped.
  cycle-reads :
      (s : Monitor) (i : Inputs)
      → Inv depth s
      → (i.fifo_read ≡ true → s.rd_adr ≡ s.rd_ptr)
      → i.clear ≡ false
      → (step depth s i).overflow ≡ false
      → left depth s ++ words (if txn_arriving i then capture_entry s i ∷ [] else [])
        ≡ (if i.fifo_read && not (fifo_empty s) then fifo_data s ∷ [] else [])
          ++ left depth (step depth s i)
  unfolding captured do_capture
  cycle-reads s i v a c h =
      let new : captured depth s i ≡ (if txn_arriving i then capture_entry s i ∷ [] else []) =
        ap (λ b. if b then capture_entry s i ∷ [] else []) (overflow_stays depth s i c h).1 in
      let gave = if i.fifo_read && not (fifo_empty s) then fifo_data s ∷ [] else [] in
      let after = if i.fifo_read then drop 1 (left depth s) else left depth s in
      ap₂ (λ l n. l ++ words n)
        (sym (
          took i.fifo_read (fifo_empty s) (fifo_data s) (left depth s)
            (λ r. data-first depth s v (a r))))
        (sym new)
      ∙ append_assoc gave after (words (captured depth s i))
      ∙ ap (λ l. gave ++ l) (sym (left-step depth s i v c))

  -- On a run without `clear` that leaves the overflow flag clear, and in which no two cycles one after the
  -- other read, nothing is lost, changed or out of order: the words that waited at first, followed by the
  -- five words of a capture of every transaction that arrived, are the words that the read port gave in
  -- the cycles that read, followed by those that wait at the end. The read port has settled at first.
  pub run-reads :
      (s : Monitor) (is : List Inputs)
      → Inv depth s
      → s.rd_adr ≡ s.rd_ptr
      → NoClear is
      → Spaced false is
      → (run (step depth) s is).overflow ≡ false
      → left depth s ++ words (arrivals depth s is)
        ≡ read_words depth s is ++ left depth (run (step depth) s is)
  unfolding run arrivals read_words words
  run-reads s is v a n sp h = go false s is v (λ _. a) n sp h
    where
      go :
          (before : Bool) (s : Monitor) (is : List Inputs)
          → Inv depth s
          → (before ≡ false → s.rd_adr ≡ s.rd_ptr)
          → NoClear is
          → Spaced before is
          → (run (step depth) s is).overflow ≡ false
          → left depth s ++ words (arrivals depth s is)
            ≡ read_words depth s is ++ left depth (run (step depth) s is)
      go before s [] v a n sp h = append-nil _
      go before s (i ∷ is) v a (c, n) (sp, sps) h =
          let t = step depth s i in
          let now = if txn_arriving i then capture_entry s i ∷ [] else [] in
          let gave = if i.fifo_read && not (fifo_empty s) then fifo_data s ∷ [] else [] in
          let one =
            cycle-reads s i v (λ r. a (ground (arith, sp, r))) c (overflow_run depth t is n h) in
          let rest = go i.fifo_read t is (step-Inv depth s i v) (settled-step s i c) n sps h in
          ap (λ l. left depth s ++ l) (words-append now (arrivals depth t is))
          ∙ sym (append_assoc (left depth s) (words now) (words (arrivals depth t is)))
          ∙ ap (λ l. l ++ words (arrivals depth t is)) one
          ∙ append_assoc gave (left depth t) (words (arrivals depth t is))
          ∙ ap (λ l. gave ++ l) rest
          ∙ sym (append_assoc gave (read_words depth t is) (left depth (run (step depth) t is)))
