-- ===== src/Protocol/Stream.antt =====
-- A stream of frames is parsed frame by frame.
use bsa_pcie_exerciser.Prelude.{
  ℕ, zero, suc, ◌+◌, ◌^◌, ◌≤◌, ◌<◌, ◌≡◌, ◌∙◌, refl, ap, true, false, none, some, List, [], ◌∷◌,
  ◌++◌, length, drop, drop-add, length-drop, length-drop_le, take-append, drop-append,
  length-append, inl, inr, arith, ltb, Bool-cases,
}
use bsa_pcie_exerciser.Protocol.{
  Found, answer, examine, find_usb_frame, find, search_bytes, preamble_bytes, word_at, bytes_at,
  u32, parse_from, parse_stream, parse_tlp_packet, Packet, usb_frame_header_size,
}
use bsa_pcie_exerciser.Protocol.Roundtrip.{u32_bytes}
use bsa_pcie_exerciser.Protocol.Frames.{Outcome, found, find_usb_frame-Outcome}

pub frame_moves :
    (d : List ℕ) (off : ℕ) {frame : List ℕ} {k : ℕ}
    → Outcome d off (some (some frame, k))
    → (off < k) × (k ≤ length d)
frame_moves d off (found fr) = (omega (arith, fr.ends, fr.behind), fr.inside)

-- Any data is parsed to the end: the fuel suffices for every search and for the loop.
parse_from-total :
    (f : ℕ) (d : List ℕ) (off : ℕ)
    → 0 < f
    → length d < off + f
    → (ps : List Packet) × (parse_from f d off ≡ some ps)
unfolding parse_from
parse_from-total zero d off z h = absurd (omega arith)
parse_from-total (suc f) d off z h = elim (Bool-cases (ltb off (length d))) [
  | inr done ↦ ([], rw (done, parse_from))
  | inl more ↦
      go (find_usb_frame-Outcome (length d + 1) d off (omega arith) (omega arith))
        (λ consumed lt le. parse_from-total f d consumed (ground arith) (omega arith)) more
]
  where
    go :
        (r : Found) × (find_usb_frame (length d + 1) d off ≡ some r) × Outcome d off (some r)
        → ((consumed : ℕ)
            → off < consumed
            → consumed ≤ length d
            → (ps : List Packet) × (parse_from f d consumed ≡ some ps))
        → ltb off (length d) ≡ true
        → (ps : List Packet) × (parse_from (suc f) d off ≡ some ps)
    go ((none, k), e, o) rec more = ([], rw (more, e, parse_from))
    go ((some frame, k), e, o) rec more =
        let (lt, le) = frame_moves d off o in
        let (ps, e') = rec k lt le in
        (
          elim (parse_tlp_packet frame) [ none ↦ ps | some p ↦ p ∷ ps ],
          rw (more, e, e', parse_from),
        )

-- parse_stream ends on any data.
pub parse_stream-total : (d : List ℕ) → (ps : List Packet) × (parse_stream d ≡ some ps)
unfolding parse_stream
parse_stream-total d = parse_from-total (length d + 1) d 0 (omega arith) (omega arith)

-- The bytes of a frame as the USB core sends it: preamble, channel, length in bytes, content.
unfoldable pub frame_bytes : List ℕ → List ℕ
frame_bytes content = preamble_bytes ++ (u32_bytes 1 ++ (u32_bytes (length content) ++ content))

unfoldable pub stream_bytes : List (List ℕ) → List ℕ
unfolding frame_bytes
stream_bytes [] = []
stream_bytes (c ∷ cs) = frame_bytes c ++ stream_bytes cs

-- The packets of the frames that hold one.
unfoldable pub packets_of : List (List ℕ) → List Packet
packets_of [] = []
packets_of (c ∷ cs) =
    let rest = packets_of cs in elim (parse_tlp_packet c) [ none ↦ rest | some p ↦ p ∷ rest ]

abbrev pub AllShort : List (List ℕ) → Type 0
AllShort [] = Unit {0}
AllShort (c ∷ cs) = (length c < 2 ^ 32) × AllShort cs

-- At the start of a frame the search finds it at once.
module _ (d : List ℕ) (off : ℕ) (c rest : List ℕ) (short : length c < 2 ^ 32)
    (at : drop off d ≡ frame_bytes c ++ rest) where
  pub length_here : length d ≡ off + (12 + length c + length rest)
  unfolding frame_bytes
  length_here =
      length-drop off d (rw at (omega arith))
      ∙ ap (λ n. off + n) (ap length at ∙ omega (arith, length-append c rest))

  found_here : find d preamble_bytes off ≡ some off
  unfolding find search_bytes frame_bytes
  found_here = rw (at, find) (ap some (omega arith))

  channel_here : word_at d (off + 4) ≡ 1
  unfolding word_at bytes_at u32 frame_bytes
  channel_here = rw (drop-add off 4 d, at) refl

  length_word : word_at d (off + 8) ≡ length c
  unfolding word_at bytes_at u32 frame_bytes
  length_word = rw (drop-add off 8 d, at) (omega arith)

  content_here : bytes_at d (off + 12) (length c) ≡ c
  unfolding bytes_at frame_bytes
  content_here = rw (drop-add off 12 d, at) (take-append c rest)

  pub next_here : drop (off + 12 + length c) d ≡ rest
  unfolding frame_bytes
  next_here = rw (drop-add (off + 12) (length c) d, drop-add off 12 d, at) (drop-append c rest)

  examined : examine d off ≡ answer (some c, off + 12 + length c)
  unfolding examine
  examined =
      let enough : ltb (length d) (off + 12) ≡ false = ground (arith, length_here) in
      let whole : ltb (length d) (off + 12 + length c) ≡ false = ground (arith, length_here) in
      rw (length_word, enough, channel_here, whole, content_here)

  pub frame_here : (f : ℕ) → find_usb_frame (suc f) d off ≡ some (some c, off + 12 + length c)
  unfolding find_usb_frame
  frame_here f =
      let enough : ltb (length d) (off + usb_frame_header_size) ≡ false =
        ground (arith, length_here) in
      rw (enough, found_here, examined, find_usb_frame)

parse_from-stream :
    (f : ℕ) (d : List ℕ) (off : ℕ) (cs : List (List ℕ))
    → AllShort cs
    → length cs < f
    → off ≤ length d
    → drop off d ≡ stream_bytes cs
    → parse_from f d off ≡ some (packets_of cs)
unfolding parse_from packets_of stream_bytes
parse_from-stream zero d off cs s h le at = absurd (omega arith)
parse_from-stream (suc f) d off [] s h le at =
    let done : ltb off (length d) ≡ false = ground (arith, length-drop_le off d le, ap length at) in
    rw (done, parse_from)
parse_from-stream (suc f) d off (c ∷ cs) (sh, s) h le at =
    let long = length_here d off c (stream_bytes cs) sh at in
    let more : ltb off (length d) ≡ true = ground (arith, long) in
    let here : find_usb_frame (length d + 1) d off ≡ some (some c, off + 12 + length c) =
      ap (λ n. find_usb_frame n d off) {y = suc (length d)} (omega arith)
      ∙ frame_here d off c (stream_bytes cs) sh at (length d) in
    let rest =
      parse_from-stream f d (off + 12 + length c) cs s (omega arith) (omega (arith, long))
        (next_here d off c (stream_bytes cs) sh at) in
    rw (more, here, rest, parse_from)

pub frames-le : (cs : List (List ℕ)) → length cs ≤ length (stream_bytes cs)
unfolding stream_bytes frame_bytes
frames-le [] = omega arith
frames-le (c ∷ cs) = omega (arith, length-append c (stream_bytes cs), frames-le cs)

-- A stream of frames, whose contents may hold the preamble as well, is parsed into the packets of
-- its frames in order; a frame that holds no complete packet is passed over. Every content is
-- shorter than 2 ^ 32 bytes.
pub parse_stream-frames :
    (cs : List (List ℕ)) → AllShort cs → parse_stream (stream_bytes cs) ≡ some (packets_of cs)
unfolding parse_stream
parse_stream-frames cs s =
    parse_from-stream (length (stream_bytes cs) + 1) (stream_bytes cs) 0 cs s
      (omega (arith, frames-le cs)) (omega arith) refl
