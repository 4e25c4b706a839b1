-- ===== src/Usb/Fifo/Order.antt =====
-- A FIFO gives the words of its entries in order, the lowest first.
use bsa_pcie_exerciser.Prelude.{
  ℕ, ◌+◌, ◌<◌, ◌≡◌, ◌∙◌, refl, sym, ap, true, false, ◌&&◌, ◌==◌, if◌then◌else◌, List, [], ◌∷◌, ◌++◌,
  arith, run, subst,
}
use mathlib.Core.List.{append-nil, append_assoc}
use bsa_pcie_exerciser.Usb.Fifo.{
  SyncFifo, Converter, MonitorFifo, Inputs, chunk_of, reset, sink_ready, source_valid, source_data,
  step, tail_of, holds_any,
}
use bsa_pcie_exerciser.Usb.Fifo.Words.{all_words, head_of, left_of, all_words-append, moves}

module _ {depth n : ℕ} (sync : SyncFifo depth) (conv : Converter n) where
  open sync use {Storing, contents}
  open conv use {Converting, place}

  -- The words that wait.
  unfoldable pub waiting : MonitorFifo Storing Converting → List ℕ
  unfolding left_of
  waiting s = left_of n (place s.converter) (contents s.fifo)

  unfoldable pub word_out : MonitorFifo Storing Converting → Inputs → List ℕ
  word_out s i =
      if source_valid sync conv s && i.source_ready then source_data sync conv s ∷ [] else []

  unfoldable pub entry_in : MonitorFifo Storing Converting → Inputs → List ℕ
  entry_in s i = if i.sink_valid && sink_ready sync conv s then i.sink_data ∷ [] else []

  data_head :
      (q : Storing) → holds_any (contents q) ≡ true → sync.source_data q ≡ head_of (contents q)
  unfolding head_of
  data_head q h = go (contents q) refl h
    where
      go : (xs : List ℕ) → contents q ≡ xs → holds_any xs ≡ true → sync.source_data q ≡ head_of xs
      go [] e h = cc
      go (x ∷ xs) e h = sync.source_data_lem q x xs e

  word_out_lem :
      (s : MonitorFifo Storing Converting) (i : Inputs)
      → word_out s i ≡ (
          if holds_any (contents s.fifo) && i.source_ready
          then chunk_of (head_of (contents s.fifo)) (place s.converter) ∷ []
          else [])
  unfolding word_out source_valid source_data
  word_out_lem s i = ground (
    arith,
    sync.source_valid_lem s.fifo,
    conv.source_valid_lem s.converter (sync.source_valid s.fifo),
    conv.source_data_lem s.converter (sync.source_data s.fifo),
    data_head s.fifo,
  )

  pub record Inv (s : MonitorFifo Storing Converting) : Type 0 where
    pub inside : place s.converter < n
    pub whole : holds_any (contents s.fifo) ≡ false → place s.converter ≡ 0

  pub step-Inv :
      (s : MonitorFifo Storing Converting) (i : Inputs) → Inv s → Inv (step sync conv s i)
  unfolding step
  step-Inv s i v = ground (
    arith,
    v.whole,
    sync.source_valid_lem s.fifo,
    sync.contents_step s.fifo i.sink_valid i.sink_data (conv.sink_ready s.converter i.source_ready),
    conv.sink_ready_lem s.converter i.source_ready,
    conv.place_step s.converter (sync.source_valid s.fifo) i.source_ready,
  )

  pub step-waiting :
      (s : MonitorFifo Storing Converting) (i : Inputs)
      → Inv s
      → word_out s i ++ waiting (step sync conv s i) ≡ waiting s ++ all_words n (entry_in s i)
  unfolding step waiting word_out entry_in sink_ready
  step-waiting s i v =
      let r = i.source_ready in
      let taken = conv.sink_ready s.converter r in
      let out : word_out s i ≡ (
          if holds_any (contents s.fifo) && r
          then chunk_of (head_of (contents s.fifo)) (place s.converter) ∷ []
          else []) =
        word_out_lem s i in
      rw
        (
          conv.place_step s.converter (sync.source_valid s.fifo) r,
          sync.contents_step s.fifo i.sink_valid i.sink_data taken,
          conv.sink_ready_lem s.converter r,
          sync.source_valid_lem s.fifo,
        )
        (ap
            (λ l.
              l
              ++ left_of n
                  (if holds_any (contents s.fifo) && r
                    then if place s.converter + 1 == n then 0 else place s.converter + 1
                    else place s.converter)
                  ((if r && (place s.converter + 1 == n)
                      then tail_of (contents s.fifo)
                      else contents s.fifo)
                    ++ entry_in s i))
            out
          ∙ moves n (place s.converter) (contents s.fifo) (entry_in s i) r v.inside v.whole)

  pub reset-Inv : 0 < n → Inv (reset sync conv)
  reset-Inv h = record {
    inside = omega (arith, conv.place_start, h);
    whole = λ e. conv.place_start;
  }

  pub waiting-reset : waiting (reset sync conv) ≡ []
  unfolding waiting
  waiting-reset = rw sync.contents_start refl

  -- A FIFO inside a larger machine: how it is found in the state, and what the machine feeds it.
  module _ {S I : Type 0} (machine : S → I → S) (fifo_of : S → MonitorFifo Storing Converting)
      (drive : S → I → Inputs) where
    -- The words that a run reads.
    unfoldable pub words_out : S → List I → List ℕ
    unfolding word_out
    words_out s [] = []
    words_out s (i ∷ is) = word_out (fifo_of s) (drive s i) ++ words_out (machine s i) is

    -- The entries that a run writes.
    unfoldable pub entries_in : S → List I → List ℕ
    unfolding entry_in
    entries_in s [] = []
    entries_in s (i ∷ is) = entry_in (fifo_of s) (drive s i) ++ entries_in (machine s i) is

    pub run-waiting :
        ((s : S) (i : I) → fifo_of (machine s i) ≡ step sync conv (fifo_of s) (drive s i))
        → (s : S) (is : List I) → Inv (fifo_of s)
        → words_out s is ++ waiting (fifo_of (run machine s is))
          ≡ waiting (fifo_of s) ++ all_words n (entries_in s is)
    unfolding run words_out entries_in
    run-waiting stepped s [] v = unfold all_words in sym (append-nil (waiting (fifo_of s)))
    run-waiting stepped s (i ∷ is) v =
        let now = stepped s i in
        let out = word_out (fifo_of s) (drive s i) in
        let come = entry_in (fifo_of s) (drive s i) in
        let later = all_words n (entries_in (machine s i) is) in
        append_assoc out (words_out (machine s i) is)
          (waiting (fifo_of (run machine (machine s i) is)))
        ∙ ap (λ l. out ++ l)
            (run-waiting stepped (machine s i) is
              (subst Inv (sym now) (step-Inv (fifo_of s) (drive s i) v)))
        ∙ sym (append_assoc out (waiting (fifo_of (machine s i))) later)
        ∙ ap (λ l. l ++ later)
            (ap (λ q. out ++ waiting q) now ∙ step-waiting (fifo_of s) (drive s i) v)
        ∙ append_assoc (waiting (fifo_of s)) (all_words n come) later
        ∙ ap (λ l. waiting (fifo_of s) ++ l)
            (sym (all_words-append n come (entries_in (machine s i) is)))
