-- ===== src/Usb/Top/Passing.antt =====
-- From the capture engines to the arbiter.
use bsa_pcie_exerciser.Prelude.{
  ℕ, ◌<◌, ◌≡◌, ◌∙◌, refl, ap, ap₂, ◌%◌, ◌/◌, ◌^◌, subst, sym, List, [], ◌∷◌, ◌++◌, arith, run, true,
  false, ◌&&◌, if◌then◌else◌,
}
use bsa_pcie_exerciser.Usb.Taps.{Inputs}
use bsa_pcie_exerciser.Usb.Capture
use bsa_pcie_exerciser.Usb.Capture.{tap_of, full_header}
use bsa_pcie_exerciser.Usb.Arbiter
use bsa_pcie_exerciser.Usb.Fifo
use bsa_pcie_exerciser.Usb.Fifo.{SyncFifo, Converter, MonitorFifo}
use bsa_pcie_exerciser.Usb.Fifo.Words.{all_words, all_words-append}
use bsa_pcie_exerciser.Usb.Fifo.Order
use bsa_pcie_exerciser.Usb.Fifo.Order.{
  waiting, word_out, entry_in, words_out, entries_in, run-waiting, reset-Inv, waiting-reset,
}
use bsa_pcie_exerciser.Usb.Top.Halves.{halves, header-halves, payload-halves}
use bsa_pcie_exerciser.Usb.Top.{
  System, reset, step, rx_tapped, tx_tapped, arbiter_inputs, header_write, payload_write,
  rx_header_drive, rx_payload_drive, tx_header_drive, tx_payload_drive,
}

-- What a run collects, cycle by cycle.
unfoldable pub collect : {S I : Type 0} → (S → I → S) → (S → I → List ℕ) → S → List I → List ℕ
collect machine f s [] = []
collect machine f s (i ∷ is) = f s i ++ collect machine f (machine s i) is

module _ {depth n : ℕ} (sync : SyncFifo depth) (conv : Converter n) {S I : Type 0}
    (machine : S → I → S) (fifo_of : S → MonitorFifo sync.Storing conv.Converting)
    (drive : S → I → Fifo.Inputs) where
  collect-words :
      (s : S) (is : List I)
      → words_out sync conv machine fifo_of drive s is
        ≡ collect machine (λ s i. word_out sync conv (fifo_of s) (drive s i)) s is
  unfolding collect words_out
  collect-words s [] = refl
  collect-words s (i ∷ is) =
      ap (λ l. word_out sync conv (fifo_of s) (drive s i) ++ l) (collect-words (machine s i) is)

  collect-entries :
      (s : S) (is : List I)
      → entries_in sync conv machine fifo_of drive s is
        ≡ collect machine (λ s i. entry_in sync conv (fifo_of s) (drive s i)) s is
  unfolding collect entries_in
  collect-entries s [] = refl
  collect-entries s (i ∷ is) =
      ap (λ l. entry_in sync conv (fifo_of s) (drive s i) ++ l) (collect-entries (machine s i) is)

  -- The words of what is collected, cycle by cycle.
  collect-all_words :
      (wrote : S → I → List ℕ)
      → ((s : S) (i : I) → all_words n (entry_in sync conv (fifo_of s) (drive s i)) ≡ wrote s i)
      → (s : S) (is : List I)
      → all_words n (collect machine (λ s i. entry_in sync conv (fifo_of s) (drive s i)) s is)
        ≡ collect machine wrote s is
  unfolding collect
  collect-all_words wrote same s [] = unfold all_words in refl
  collect-all_words wrote same s (i ∷ is) =
      all_words-append n (entry_in sync conv (fifo_of s) (drive s i)) _
      ∙ ap₂ (λ l m. l ++ m) (same s i) (collect-all_words wrote same (machine s i) is)

  -- A FIFO of a machine after a run from its reset.
  fresh-passes :
      ((s : S) (i : I) → fifo_of (machine s i) ≡ Fifo.step sync conv (fifo_of s) (drive s i))
      → 0 < n
      → (wrote : S → I → List ℕ)
      → ((s : S) (i : I) → all_words n (entry_in sync conv (fifo_of s) (drive s i)) ≡ wrote s i)
      → (s : S) (is : List I) → fifo_of s ≡ Fifo.reset sync conv
      → collect machine (λ s i. word_out sync conv (fifo_of s) (drive s i)) s is
          ++ waiting sync conv (fifo_of (run machine s is))
        ≡ collect machine wrote s is
  fresh-passes stepped pos wrote same s is e =
      ap (λ l. l ++ waiting sync conv (fifo_of (run machine s is))) (sym (collect-words s is))
      ∙ run-waiting sync conv machine fifo_of drive stepped s is
          (subst (Order.Inv sync conv) (sym e) (reset-Inv sync conv pos))
      ∙ ap (λ l. l ++ all_words n (entries_in sync conv machine fifo_of drive s is))
          (ap (waiting sync conv) e ∙ waiting-reset sync conv)
      ∙ ap (all_words n) (collect-entries s is)
      ∙ collect-all_words wrote same s is

module _ {depth : ℕ} (hs : SyncFifo 4) (hc : Converter 8) (ps : SyncFifo depth)
    (pc : Converter 2) where
  -- The 32-bit words of what each engine writes in a cycle, where the FIFO has room: a header of four
  -- 64-bit words, and a payload word.
  unfoldable pub rx_header : System hs hc ps pc → Inputs → List ℕ
  rx_header s i =
      let c = rx_tapped hs hc ps pc s i in
      if Capture.header_valid c (tap_of c) s.rx_capture && Fifo.sink_ready hs hc s.rx_header_fifo
      then halves (full_header false s.rx_capture c)
      else []

  unfoldable pub tx_header : System hs hc ps pc → Inputs → List ℕ
  tx_header s i =
      let c = tx_tapped hs hc ps pc s i in
      if Capture.header_valid c (tap_of c) s.tx_capture && Fifo.sink_ready hs hc s.tx_header_fifo
      then halves (full_header true s.tx_capture c)
      else []

  unfoldable pub rx_payload : System hs hc ps pc → Inputs → List ℕ
  rx_payload s i =
      let c = rx_tapped hs hc ps pc s i in
      if Capture.payload_valid c (tap_of c) s.rx_capture && Fifo.sink_ready ps pc s.rx_payload_fifo
      then (tap_of c).dat % 2 ^ 32 ∷ (tap_of c).dat / 2 ^ 32 % 2 ^ 32 ∷ []
      else []

  unfoldable pub tx_payload : System hs hc ps pc → Inputs → List ℕ
  tx_payload s i =
      let c = tx_tapped hs hc ps pc s i in
      if Capture.payload_valid c (tap_of c) s.tx_capture && Fifo.sink_ready ps pc s.tx_payload_fifo
      then (tap_of c).dat % 2 ^ 32 ∷ (tap_of c).dat / 2 ^ 32 % 2 ^ 32 ∷ []
      else []

  -- What the arbiter takes in a cycle at each of its inputs.
  unfoldable pub took_rx_header : System hs hc ps pc → Inputs → List ℕ
  took_rx_header s i =
      let a = arbiter_inputs hs hc ps pc s i in
      if a.rx_header_valid && Arbiter.rx_header_ready s.arbiter a then a.rx_header_data ∷ [] else []

  unfoldable pub took_tx_header : System hs hc ps pc → Inputs → List ℕ
  took_tx_header s i =
      let a = arbiter_inputs hs hc ps pc s i in
      if a.tx_header_valid && Arbiter.tx_header_ready s.arbiter a then a.tx_header_data ∷ [] else []

  unfoldable pub took_rx_payload : System hs hc ps pc → Inputs → List ℕ
  took_rx_payload s i =
      let a = arbiter_inputs hs hc ps pc s i in
      if a.rx_payload_valid && Arbiter.rx_payload_ready s.arbiter a
      then a.rx_payload_data ∷ []
      else []

  unfoldable pub took_tx_payload : System hs hc ps pc → Inputs → List ℕ
  took_tx_payload s i =
      let a = arbiter_inputs hs hc ps pc s i in
      if a.tx_payload_valid && Arbiter.tx_payload_ready s.arbiter a
      then a.tx_payload_data ∷ []
      else []

  -- The words of what one engine wrote on a run from reset are those that the arbiter took, and those
  -- that wait.
  abbrev pub Passes :
      {d n : ℕ} (sync : SyncFifo d) (conv : Converter n)
      → (System hs hc ps pc → MonitorFifo sync.Storing conv.Converting)
      → (System hs hc ps pc → Inputs → List ℕ)
      → (System hs hc ps pc → Inputs → List ℕ)
      → List Inputs
      → Type 0
  Passes {n = n} sync conv fifo_of took wrote is =
      collect (step hs hc ps pc) took (reset hs hc ps pc) is
        ++ waiting sync conv (fifo_of (run (step hs hc ps pc) (reset hs hc ps pc) is))
      ≡ collect (step hs hc ps pc) wrote (reset hs hc ps pc) is

  -- However the streams run at the taps and the crossbar stalls: after any run from reset the 32-bit words
  -- that the arbiter took at its input for inbound headers, followed by those that wait there, are those
  -- of the headers that the inbound capture engine wrote, each header once, in order, its four 64-bit words
  -- in turn and the low half of each first; the same holds of outbound headers, and of inbound and outbound
  -- payload with the 64-bit words that the engine wrote.
  pub run-Passes :
      (is : List Inputs)
      → Passes hs hc (λ s. s.rx_header_fifo) took_rx_header rx_header is
        × Passes ps pc (λ s. s.rx_payload_fifo) took_rx_payload rx_payload is
        × Passes hs hc (λ s. s.tx_header_fifo) took_tx_header tx_header is
        × Passes ps pc (λ s. s.tx_payload_fifo) took_tx_payload tx_payload is
  unfolding step rx_header_drive rx_payload_drive tx_header_drive tx_payload_drive header_write
      payload_write arbiter_inputs word_out entry_in rx_header tx_header rx_payload tx_payload
      took_rx_header took_tx_header took_rx_payload took_tx_payload
  run-Passes is = (
    fresh-passes hs hc (step hs hc ps pc) (λ s. s.rx_header_fifo) (rx_header_drive hs hc ps pc)
        (λ s i. refl) (omega arith) rx_header
        (λ s i. header-halves _ false s.rx_capture (rx_tapped hs hc ps pc s i)) (reset hs hc ps pc)
        is refl,
    fresh-passes ps pc (step hs hc ps pc) (λ s. s.rx_payload_fifo) (rx_payload_drive hs hc ps pc)
        (λ s i. refl) (omega arith) rx_payload
        (λ s i. payload-halves _ (tap_of (rx_tapped hs hc ps pc s i)).dat) (reset hs hc ps pc) is
        refl,
    fresh-passes hs hc (step hs hc ps pc) (λ s. s.tx_header_fifo) (tx_header_drive hs hc ps pc)
        (λ s i. refl) (omega arith) tx_header
        (λ s i. header-halves _ true s.tx_capture (tx_tapped hs hc ps pc s i)) (reset hs hc ps pc)
        is refl,
    fresh-passes ps pc (step hs hc ps pc) (λ s. s.tx_payload_fifo) (tx_payload_drive hs hc ps pc)
        (λ s i. refl) (omega arith) tx_payload
        (λ s i. payload-halves _ (tap_of (tx_tapped hs hc ps pc s i)).dat) (reset hs hc ps pc) is
        refl,
  )
