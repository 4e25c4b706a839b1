-- ===== src/Protocol/Payload.antt =====
-- A whole packet, header and payload, out of the stream and back.
use bsa_pcie_exerciser.Prelude.{
  ℕ, ◌+◌, ◌*◌, ◌/◌, ◌%◌, ◌^◌, ◌≤◌, ◌<◌, ◌≡◌, ◌∙◌, refl, ap, ap₂, some, List, [], ◌∷◌, ◌++◌, length,
  take, drop, drop-add, arith,
}
use bsa_pcie_exerciser.Usb.Layouts.{build_header_word2}
use bsa_pcie_exerciser.Protocol.{
  Header, parse_tlp_header, parse_tlp_packet, finish_packet, payload_words, word_at, u32, bytes_at,
}
use bsa_pcie_exerciser.Protocol.Roundtrip.{
  u32_bytes, header_bytes, Widths, IsRx, IsTx, word0, word1, word3_rx, word3_tx, parse_words,
  header_of-rx, header_of-tx, words-lt, word3_tx-lt,
}

-- The payload words as the stream carries them, and what follows.
unfoldable pub words_bytes : List ℕ → List ℕ → List ℕ
words_bytes [] rest = rest
words_bytes (w ∷ ws) rest = u32_bytes w ++ words_bytes ws rest

abbrev pub AllWords : List ℕ → Type 0
AllWords [] = Unit {0}
AllWords (w ∷ ws) = (w < 2 ^ 32) × AllWords ws

word_back :
    (w : ℕ)
    → w < 2 ^ 32
    → w % 2 ^ 8
        + w / 2 ^ 8 % 2 ^ 8 * 2 ^ 8
        + w / 2 ^ 16 % 2 ^ 8 * 2 ^ 16
        + w / 2 ^ 24 % 2 ^ 8 * 2 ^ 24
      ≡ w
word_back w h = omega arith

word_at-words :
    (d : List ℕ) (off w : ℕ) (t : List ℕ)
    → w < 2 ^ 32
    → drop off d ≡ u32_bytes w ++ t
    → word_at d off ≡ w
unfolding word_at u32 bytes_at
word_at-words d off w t h e = rw (e, take) (word_back w h)

payload_words-words :
    (d : List ℕ) (off : ℕ) (ws rest : List ℕ)
    → AllWords ws
    → drop off d ≡ words_bytes ws rest
    → payload_words d off (length ws) ≡ ws
unfolding payload_words words_bytes
payload_words-words d off [] rest a e = refl
payload_words-words d off (w ∷ ws) rest (h, a) e =
    ap₂ (λ x xs. x ∷ xs) (word_at-words d off w (words_bytes ws rest) h e)
      (payload_words-words d (off + 4) ws rest a (drop-add off 4 d ∙ ap (drop 4) e))

pub length-words_bytes :
    (ws rest : List ℕ) → length (words_bytes ws rest) ≡ length ws * 4 + length rest
unfolding words_bytes
length-words_bytes [] rest = omega arith
length-words_bytes (w ∷ ws) rest = omega (arith, length-words_bytes ws rest)

pub words_bytes-append : (ws rest : List ℕ) → words_bytes ws rest ≡ words_bytes ws [] ++ rest
unfolding words_bytes
words_bytes-append [] rest = refl
words_bytes-append (w ∷ ws) rest = ap (λ bytes. u32_bytes w ++ bytes) (words_bytes-append ws rest)

pub whole : (h : Header) → Widths h → build_header_word2 h.address ≡ h.address
unfolding build_header_word2
whole h w = omega arith

finish :
    (d : List ℕ) (h : Header) (ws : List ℕ)
    → 32 + length ws * 4 ≤ length d
    → length ws ≡ h.payload_length
    → payload_words d 32 (length ws) ≡ ws
    → finish_packet d (some h) ≡ some (record { header = h; payload = ws })
unfolding finish_packet
finish d h ws long l p = ground (arith, ap (payload_words d 32) l)

packet :
    (h0 h1 h2 h3 : ℕ) (h : Header) (ws rest : List ℕ)
    → parse_tlp_header (header_bytes h0 h1 h2 h3 (words_bytes ws rest)) ≡ some h
    → AllWords ws
    → length ws ≡ h.payload_length
    → parse_tlp_packet (header_bytes h0 h1 h2 h3 (words_bytes ws rest))
      ≡ some (record { header = h; payload = ws })
unfolding parse_tlp_packet
packet h0 h1 h2 h3 h ws rest same a l =
    let d = header_bytes h0 h1 h2 h3 (words_bytes ws rest) in
    ap (finish_packet d) same
    ∙ finish d h ws (omega (arith, length-words_bytes ws rest)) l
        (payload_words-words d 32 ws rest a refl)

-- An inbound packet survives the stream: for a header whose fields have the widths of the taps and
-- fit the RX layout, and a payload of as many 32-bit words as the header says, the parser gives
-- back the header and the payload from the bytes of the four header words that the gateware
-- builds, the payload, and anything behind.
pub parse-layout_rx :
    (h : Header) (ws rest : List ℕ)
    → Widths h
    → IsRx h
    → AllWords ws
    → length ws ≡ h.payload_length
    → parse_tlp_packet (
        header_bytes
          (word0 h)
          (word1 h)
          (build_header_word2 h.address)
          (word3_rx h)
          (words_bytes ws rest))
      ≡ some (record { header = h; payload = ws })
parse-layout_rx h ws rest w r a l =
    let (b0, b1, b3) = words-lt h w in
    rw (whole h w) (
      packet _ _ _ _ h ws rest
        (parse_words _ _ _ _ (words_bytes ws rest) b0 b1 w.addr b3 ∙ ap some (header_of-rx h w r)) a
        l)

-- An outbound packet survives the stream in the same way, with the TX layout.
pub parse-layout_tx :
    (h : Header) (ws rest : List ℕ)
    → Widths h
    → IsTx h
    → AllWords ws
    → length ws ≡ h.payload_length
    → parse_tlp_packet (
        header_bytes
          (word0 h)
          (word1 h)
          (build_header_word2 h.address)
          (word3_tx h)
          (words_bytes ws rest))
      ≡ some (record { header = h; payload = ws })
parse-layout_tx h ws rest w t a l =
    let (b0, b1, b3) = words-lt h w in
    rw (whole h w) (
      packet _ _ _ _ h ws rest
        (parse_words _ _ _ _ (words_bytes ws rest) b0 b1 w.addr (word3_tx-lt h w t)
          ∙ ap some (header_of-tx h w t))
        a l)
