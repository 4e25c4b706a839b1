-- ===== src/Tools/Capture/Splits.antt =====
-- A frame that two datagrams share.
use bsa_pcie_exerciser.Prelude.{
  ℕ, zero, suc, ◌+◌, ◌^◌, ◌≤◌, ◌<◌, ◌≡◌, ◌∙◌, refl, ap, true, false, none, some, List, [], ◌∷◌,
  ◌++◌, length, take, drop, arith, ltb,
}
use bsa_pcie_exerciser.Protocol.{
  find_usb_frame, find, examine, answer, search_bytes, preamble_bytes, word_at, bytes_at, u32,
}
use bsa_pcie_exerciser.Protocol.Roundtrip.{u32_bytes}
use bsa_pcie_exerciser.Protocol.Stream.{frame_bytes}
use bsa_pcie_exerciser.Tools.Capture.{
  MonitorCapture, find_packet, discard, at_least_one, extract, appended, receive, receive_loop,
}

receive-fails :
    (n : ℕ) (s : MonitorCapture) (bytes d : List ℕ) (k : ℕ)
    → s.buffer ++ bytes ≡ d
    → 32 ≤ length d
    → find_packet d ≡ some (none, k)
    → receive n s bytes ≡ some (discard (appended s bytes) k)
unfolding receive extract appended
receive-fails n s bytes d k e long fails =
    let more : ltb (length (s.buffer ++ bytes)) 32 ≡ false = ground (arith, ap length e) in
    let none_here = ap find_packet e ∙ fails in
    ap (λ f. extract n f (appended s bytes)) {y = suc (length s.buffer + length bytes)}
      (omega arith)
    ∙ rw (more, none_here, extract)

length-take : (j : ℕ) (c : List ℕ) → j ≤ length c → length (take j c) ≡ j
length-take zero c h = refl
length-take (suc j) [] h = absurd (omega arith)
length-take (suc j) (x ∷ c) h = omega (arith, length-take j c (omega arith))

take-drop : (j : ℕ) (c : List ℕ) → take j c ++ drop j c ≡ c
take-drop zero c = refl
take-drop (suc j) [] = refl
take-drop (suc j) (x ∷ c) = ap (λ l. x ∷ l) (take-drop j c)

-- The frame of a content, up to the first `j` bytes of the content.
unfoldable pub frame_start : List ℕ → ℕ → List ℕ
frame_start c j = preamble_bytes ++ (u32_bytes 1 ++ (u32_bytes (length c) ++ take j c))

frame_start-drop : (c : List ℕ) (j : ℕ) → frame_start c j ++ drop j c ≡ frame_bytes c
unfolding frame_start frame_bytes
frame_start-drop c j =
    ap (λ l. preamble_bytes ++ (u32_bytes 1 ++ (u32_bytes (length c) ++ l))) (take-drop j c)

module _ (c : List ℕ) (j : ℕ) (short : length c < 2 ^ 32) (cut : j < length c) where
  length_start : length (frame_start c j) ≡ 12 + j
  unfolding frame_start
  length_start = omega (arith, length-take j c (omega arith))

  length_word : word_at (frame_start c j) 8 ≡ length c
  unfolding word_at bytes_at u32 frame_start
  length_word = omega arith

  found_start : find (frame_start c j) preamble_bytes 0 ≡ some 0
  unfolding find search_bytes frame_start
  found_start = refl

  channel_start : word_at (frame_start c j) 4 ≡ 1
  unfolding word_at bytes_at u32 frame_start
  channel_start = refl

  examined : examine (frame_start c j) 0 ≡ answer (none, 0)
  unfolding examine
  examined =
      let enough : ltb (length (frame_start c j)) 12 ≡ false = ground (arith, length_start) in
      let part : ltb (length (frame_start c j)) (12 + length c) ≡ true =
        ground (arith, length_start) in
      rw (enough, channel_start, length_word, part)

  find_packet-start : find_packet (frame_start c j) ≡ some (none, 0)
  unfolding find_packet find_usb_frame
  find_packet-start =
      let enough : ltb (length (frame_start c j)) 12 ≡ false = ground (arith, length_start) in
      let here : find_usb_frame (suc (length (frame_start c j))) (frame_start c j) 0
          ≡ some (none, 0) =
        rw (enough, found_start, examined, find_usb_frame) in
      let same : find_usb_frame (length (frame_start c j) + 1) (frame_start c j) 0
          ≡ some (none, 0) =
        ap (λ n. find_usb_frame n (frame_start c j) 0) {y = suc (length (frame_start c j))}
          (omega arith)
        ∙ here in
      rw (same, find_packet)

find_packet-none :
    (d : List ℕ)
    → 12 ≤ length d
    → search_bytes preamble_bytes d ≡ none
    → find_packet d ≡ some (none, length d)
unfolding find_packet find_usb_frame find
find_packet-none d long h =
    let enough : ltb (length d) 12 ≡ false = ground arith in
    let no_preamble : find d preamble_bytes 0 ≡ none = rw (h, find) in
    let here : find_usb_frame (suc (length d)) d 0 ≡ some (none, length d) =
      rw (enough, no_preamble, find_usb_frame) in
    let same : find_usb_frame (length d + 1) d 0 ≡ some (none, length d) =
      ap (λ n. find_usb_frame n d 0) {y = suc (length d)} (omega arith) ∙ here in
    rw (same, find_packet)

left_over :
    (s : MonitorCapture) (c : List ℕ) (j : ℕ)
    → s.buffer ≡ []
    → (discard (appended s (frame_start c j)) 0).buffer ++ drop j c ≡ drop 1 (frame_bytes c)
unfolding discard at_least_one appended frame_start
left_over s c j e =
    ap (λ b. drop 1 (b ++ frame_start c j) ++ drop j c) e ∙ ap (drop 1) (frame_start-drop c j)

rest-long : (c : List ℕ) → 21 ≤ length c → 32 ≤ length (drop 1 (frame_bytes c))
unfolding frame_bytes
rest-long c h = omega arith

-- Nothing was given out, and two errors were counted.
pub record IsLost (s s' : MonitorCapture) : Type 0 where
  pub packets : s'.packets ≡ s.packets
  pub calls : s'.calls ≡ s.calls
  pub received : s'.packets_received ≡ s.packets_received
  pub errors : s'.parse_errors ≡ s.parse_errors + 2

-- A frame that two datagrams share is lost: when the first ends inside the content, behind at least
-- 20 of its bytes, and the frame holds no second preamble, the receiver, whose buffer is empty, drops
-- the frame's first byte on the first datagram and cannot find the frame on the second; it gives out
-- no packet and counts two errors, though the frame arrived whole and may hold a packet.
pub receive_loop-IsLost :
    (n : ℕ) (s : MonitorCapture) (c : List ℕ) (j : ℕ)
    → length c < 2 ^ 32
    → 20 ≤ j
    → j < length c
    → search_bytes preamble_bytes (drop 1 (frame_bytes c)) ≡ none
    → s.buffer ≡ []
    → (s' : MonitorCapture) × (receive_loop n s (frame_start c j ∷ drop j c ∷ []) ≡ some s')
      × IsLost s s'
unfolding receive_loop discard appended
receive_loop-IsLost n s c j short long cut no_preamble e =
    let one = discard (appended s (frame_start c j)) 0 in
    let rest = drop 1 (frame_bytes c) in
    let first : receive n s (frame_start c j) ≡ some one =
      receive-fails n s (frame_start c j) (frame_start c j) 0 (ap (λ b. b ++ frame_start c j) e)
        (omega (arith, length_start c j short cut)) (find_packet-start c j short cut) in
    let left : one.buffer ++ drop j c ≡ rest = left_over s c j e in
    let many : 32 ≤ length rest = rest-long c (omega arith) in
    let second =
      receive-fails n one (drop j c) rest (length rest) left many
        (find_packet-none rest (omega (arith, many)) no_preamble) in
    let two = discard (appended one (drop j c)) (length rest) in
    (
      two,
      rw (first, second, receive_loop),
      record { packets = refl; calls = refl; received = refl; errors = omega arith },
    )
