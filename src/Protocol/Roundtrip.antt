-- ===== src/Protocol/Roundtrip.antt =====
-- The parser against the layout that the gateware writes.
use bsa_pcie_exerciser.Prelude.{
  ℕ, ◌+◌, ◌*◌, ◌/◌, ◌%◌, ◌^◌, ◌<◌, ◌≡◌, false, b2n, bit, slice, some, List, [], ◌∷◌, ◌++◌, arith,
}
use bsa_pcie_exerciser.Usb.Layouts.{
  build_header_word0, build_header_word1, build_header_word3_rx, build_header_word3_tx,
}
use bsa_pcie_exerciser.Protocol.{
  Header, header_of, parse_tlp_header, quad_at, word_at, u32, bytes_at,
}

-- A 32-bit word as the stream carries it, low byte first.
abbrev pub u32_bytes : ℕ → List ℕ
u32_bytes w = w % 2 ^ 8 ∷ w / 2 ^ 8 % 2 ^ 8 ∷ w / 2 ^ 16 % 2 ^ 8 ∷ w / 2 ^ 24 % 2 ^ 8 ∷ []

-- A 64-bit word, its low half first.
abbrev pub quad_bytes : ℕ → List ℕ
quad_bytes h = u32_bytes (h % 2 ^ 32) ++ u32_bytes (h / 2 ^ 32 % 2 ^ 32)

abbrev pub header_bytes : ℕ → ℕ → ℕ → ℕ → List ℕ → List ℕ
header_bytes h0 h1 h2 h3 rest =
    quad_bytes h0 ++ (quad_bytes h1 ++ (quad_bytes h2 ++ (quad_bytes h3 ++ rest)))

quad_back :
    (h : ℕ)
    → h < 2 ^ 64
    → let lo = h % 2 ^ 32 in
      let hi = h / 2 ^ 32 % 2 ^ 32 in
      (lo % 2 ^ 8
          + lo / 2 ^ 8 % 2 ^ 8 * 2 ^ 8
          + lo / 2 ^ 16 % 2 ^ 8 * 2 ^ 16
          + lo / 2 ^ 24 % 2 ^ 8 * 2 ^ 24)
        + (hi % 2 ^ 8
            + hi / 2 ^ 8 % 2 ^ 8 * 2 ^ 8
            + hi / 2 ^ 16 % 2 ^ 8 * 2 ^ 16
            + hi / 2 ^ 24 % 2 ^ 8 * 2 ^ 24)
          * 2 ^ 32
      ≡ h
quad_back h l = omega arith

-- The parser reads the four words back.
pub parse_words :
    (h0 h1 h2 h3 : ℕ) (rest : List ℕ)
    → h0 < 2 ^ 64
    → h1 < 2 ^ 64
    → h2 < 2 ^ 64
    → h3 < 2 ^ 64
    → parse_tlp_header (header_bytes h0 h1 h2 h3 rest) ≡ some (header_of h0 h1 h2 h3)
unfolding parse_tlp_header quad_at word_at u32 bytes_at
parse_words h0 h1 h2 h3 rest a b c d =
    rw (quad_back h0 a, quad_back h1 b, quad_back h2 c, quad_back h3 d) (ground arith)

-- A header's fields in the widths of the taps.
pub record Widths (h : Header) : Type 0 where
  pub len : h.payload_length < 2 ^ 10
  pub kind : h.tlp_type < 2 ^ 4
  pub dir : h.direction < 2
  pub words : h.header_words ≡ 4
  pub time : h.timestamp < 2 ^ 64
  pub id : h.req_id < 2 ^ 16
  pub tag : h.tag < 2 ^ 8
  pub first : h.first_be < 2 ^ 4
  pub last : h.last_be < 2 ^ 4
  pub addr : h.address < 2 ^ 64
  pub bar : h.bar_hit < 2 ^ 3
  pub attr : h.attr < 2 ^ 2
  pub at : h.at < 2 ^ 2
  pub pasid : h.pasid < 2 ^ 20
  pub status : h.status < 2 ^ 3
  pub cmp : h.cmp_id < 2 ^ 16
  pub count : h.byte_count < 2 ^ 12

-- The words that the capture engine builds from these fields.
abbrev pub word0 : Header → ℕ
word0 h =
    build_header_word0 h.payload_length h.tlp_type h.direction (slice h.timestamp 0 32) h.truncated

abbrev pub word1 : Header → ℕ
word1 h = build_header_word1 (slice h.timestamp 32 32) h.req_id h.tag h.first_be h.last_be

abbrev pub word3_rx : Header → ℕ
word3_rx h = build_header_word3_rx h.we h.bar_hit h.attr h.at h.status h.cmp_id h.byte_count

abbrev pub word3_tx : Header → ℕ
word3_tx h =
    build_header_word3_tx h.we h.attr h.at h.pasid_valid h.pasid h.privileged h.execute h.status
      h.cmp_id h.byte_count

-- What the RX layout can carry: it has no PASID, and the two request flags of the TX layout
-- overlap the status.
pub record IsRx (h : Header) : Type 0 where
  pub no_pasid : h.pasid_valid ≡ false
  pub no_value : h.pasid ≡ 0
  pub priv : b2n h.privileged ≡ h.status % 2
  pub exec : b2n h.execute ≡ h.status / 2 % 2

-- What the TX layout can carry: it has no BAR, and the low bits of the status are the two flags.
pub record IsTx (h : Header) : Type 0 where
  pub no_bar : h.bar_hit ≡ 0
  pub flags : h.status % 4 ≡ b2n h.privileged + 2 * b2n h.execute

word0_fields :
    (h : Header) (w : Widths h)
    → (word0 h < 2 ^ 64)
      × (slice (word0 h) 0 10 ≡ h.payload_length)
      × (slice (word0 h) 10 4 ≡ h.tlp_type)
      × (slice (word0 h) 14 1 ≡ h.direction)
      × (bit (word0 h) 15 ≡ h.truncated)
      × (slice (word0 h) 16 16 ≡ h.header_words)
      × (slice (word0 h) 32 32 ≡ slice h.timestamp 0 32)
unfolding build_header_word0
word0_fields h w = ground arith

word1_fields :
    (h : Header) (w : Widths h)
    → (word1 h < 2 ^ 64)
      × (slice (word1 h) 0 32 ≡ slice h.timestamp 32 32)
      × (slice (word1 h) 32 16 ≡ h.req_id)
      × (slice (word1 h) 48 8 ≡ h.tag)
      × (slice (word1 h) 56 4 ≡ h.first_be)
      × (slice (word1 h) 60 4 ≡ h.last_be)
unfolding build_header_word1
word1_fields h w = omega arith

word3_rx_fields :
    (h : Header) (w : Widths h)
    → (word3_rx h < 2 ^ 64)
      × (bit (word3_rx h) 0 ≡ h.we)
      × (slice (word3_rx h) 1 3 ≡ h.bar_hit)
      × (slice (word3_rx h) 4 2 ≡ h.attr)
      × (slice (word3_rx h) 6 2 ≡ h.at)
      × (slice (word3_rx h) 8 21 ≡ 0)
      × (slice (word3_rx h) 29 3 ≡ h.status)
      × (slice (word3_rx h) 32 16 ≡ h.cmp_id)
      × (slice (word3_rx h) 48 12 ≡ h.byte_count)
unfolding build_header_word3_rx
word3_rx_fields h w = ground arith

word3_tx_fields :
    (h : Header) (w : Widths h)
    → IsTx h
    → (word3_tx h < 2 ^ 64)
      × (bit (word3_tx h) 0 ≡ h.we)
      × (slice (word3_tx h) 1 3 ≡ h.bar_hit)
      × (slice (word3_tx h) 4 2 ≡ h.attr)
      × (slice (word3_tx h) 6 2 ≡ h.at)
      × (bit (word3_tx h) 8 ≡ h.pasid_valid)
      × (slice (word3_tx h) 9 20 ≡ h.pasid)
      × (bit (word3_tx h) 29 ≡ h.privileged)
      × (bit (word3_tx h) 30 ≡ h.execute)
      × (slice (word3_tx h) 29 3 ≡ h.status)
      × (slice (word3_tx h) 32 16 ≡ h.cmp_id)
      × (slice (word3_tx h) 48 12 ≡ h.byte_count)
unfolding build_header_word3_tx
word3_tx_fields h w t = ground arith

rx_flags :
    (h : Header) (w : ℕ)
    → IsRx h
    → slice w 8 21 ≡ 0
    → slice w 29 3 ≡ h.status
    → (bit w 8 ≡ h.pasid_valid)
      × (slice w 9 20 ≡ h.pasid)
      × (bit w 29 ≡ h.privileged)
      × (bit w 30 ≡ h.execute)
rx_flags h w r z s = ground arith

-- The words of a header give its fields back, in both layouts.
pub header_of-rx :
    (h : Header) → Widths h → IsRx h → header_of (word0 h) (word1 h) h.address (word3_rx h) ≡ h
unfolding header_of
header_of-rx h w r =
    let f = word3_rx_fields h w in
    ground (arith, word0_fields h w, word1_fields h w, f, rx_flags h (word3_rx h) r f.5 f.6, w.time)

pub header_of-tx :
    (h : Header) → Widths h → IsTx h → header_of (word0 h) (word1 h) h.address (word3_tx h) ≡ h
unfolding header_of
header_of-tx h w t =
    ground (arith, word0_fields h w, word1_fields h w, word3_tx_fields h w t, w.time)

pub words-lt :
    (h : Header) → Widths h → (word0 h < 2 ^ 64) × (word1 h < 2 ^ 64) × (word3_rx h < 2 ^ 64)
words-lt h w = ((word0_fields h w).0, (word1_fields h w).0, (word3_rx_fields h w).0)

pub word3_tx-lt : (h : Header) → Widths h → IsTx h → word3_tx h < 2 ^ 64
word3_tx-lt h w t = (word3_tx_fields h w t).0
