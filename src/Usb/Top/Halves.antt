-- ===== src/Usb/Top/Halves.antt =====
-- The 32-bit words of a header and of a payload word, as the FIFOs pass them on.
use bsa_pcie_exerciser.Prelude.{
  ℕ, ◌%◌, ◌/◌, ◌^◌, ◌<◌, ◌≡◌, refl, ap, Bool, true, false, if◌then◌else◌, List, [], ◌∷◌, arith,
}
use bsa_pcie_exerciser.Usb.Layouts.{
  build_header_word0, build_header_word1, build_header_word2, build_header_word3_rx,
  build_header_word3_tx,
}
use bsa_pcie_exerciser.Usb.Capture
use bsa_pcie_exerciser.Usb.Capture.{Capture, Fields, header_words, full_header}
use bsa_pcie_exerciser.Usb.Fifo.{chunk_of}
use bsa_pcie_exerciser.Usb.Fifo.Words.{all_words, words_from}
use bsa_pcie_exerciser.Usb.Top.{header_entry}

-- Each 64-bit word, its low half first.
unfoldable pub halves : ℕ × ℕ × ℕ × ℕ → List ℕ
halves (h0, h1, h2, h3) =
    h0 % 2 ^ 32
    ∷ h0 / 2 ^ 32
    ∷ h1 % 2 ^ 32
    ∷ h1 / 2 ^ 32
    ∷ h2 % 2 ^ 32
    ∷ h2 / 2 ^ 32
    ∷ h3 % 2 ^ 32
    ∷ h3 / 2 ^ 32
    ∷ []

abbrev Small : ℕ × ℕ × ℕ × ℕ → Type 0
Small (h0, h1, h2, h3) = (h0 < 2 ^ 64) × (h1 < 2 ^ 64) × (h2 < 2 ^ 64) × (h3 < 2 ^ 64)

words-Small : (tx : Bool) (f : Fields) (cut : Bool) → Small (header_words tx f cut)
unfolding header_words build_header_word0 build_header_word1 build_header_word2
    build_header_word3_rx build_header_word3_tx
words-Small true f cut = (ground arith, ground arith, ground arith, ground arith)
words-Small false f cut = (ground arith, ground arith, ground arith, ground arith)

eight :
    {a b c d e f g h a' b' c' d' e' f' g' h' : ℕ}
    → a ≡ a'
    → b ≡ b'
    → c ≡ c'
    → d ≡ d'
    → e ≡ e'
    → f ≡ f'
    → g ≡ g'
    → h ≡ h'
    → a ∷ b ∷ c ∷ d ∷ e ∷ f ∷ g ∷ h ∷ [] ≡ a' ∷ b' ∷ c' ∷ d' ∷ e' ∷ f' ∷ g' ∷ h' ∷ []
eight a b c d e f g h = cc

entry-halves : (hs : ℕ × ℕ × ℕ × ℕ) → Small hs → all_words 8 (header_entry hs ∷ []) ≡ halves hs
unfolding all_words words_from chunk_of header_entry halves
entry-halves (h0, h1, h2, h3) (a, b, c, d) =
    eight (omega arith) (omega arith) (omega arith) (omega arith) (omega arith) (omega arith)
      (omega arith) (omega arith)

-- What an engine writes in a cycle, or nothing.
pub header-halves :
    (b tx : Bool) (c : Capture) (i : Capture.Inputs)
    → all_words 8 (if b then header_entry (full_header tx c i) ∷ [] else [])
      ≡ (if b then halves (full_header tx c i) else [])
unfolding full_header
header-halves true tx c i = entry-halves (full_header tx c i) (
    words-Small tx (Capture.use_fields i (Capture.tap_of i) c)
      (Capture.final_truncated i (Capture.tap_of i) c))
header-halves false tx c i = unfold all_words in refl

pub payload-halves :
    (b : Bool) (w : ℕ)
    → all_words 2 (if b then w ∷ [] else [])
      ≡ (if b then w % 2 ^ 32 ∷ w / 2 ^ 32 % 2 ^ 32 ∷ [] else [])
unfolding all_words words_from chunk_of
payload-halves true w = ap (λ k. k ∷ w / 2 ^ 32 % 2 ^ 32 ∷ []) (omega arith)
payload-halves false w = refl
