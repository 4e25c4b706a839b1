-- ===== src/Tools/Capture/Total.antt =====
-- The receiver on any bytes.
use bsa_pcie_exerciser.Prelude.{
  ℕ, zero, suc, ◌+◌, ◌-◌, ◌≤◌, ◌<◌, ◌≡◌, false, none, some, Option, List, [], ◌∷◌, length, drop,
  length-append, length-drop_le, arith, ltb, inl, inr, Bool-cases,
}
use bsa_pcie_exerciser.Protocol.{Found, Packet, find_usb_frame, parse_tlp_packet}
use bsa_pcie_exerciser.Protocol.Frames.{Outcome, find_usb_frame-Outcome}
use bsa_pcie_exerciser.Protocol.Stream.{frame_moves}
use bsa_pcie_exerciser.Tools.Capture.{
  MonitorCapture, at_least_one, find_packet, discard, accept, extract, appended, receive,
}

-- What find_packet gives: no packet, or one behind at least a byte of the data.
data Parsed (d : List ℕ) : Option Packet × ℕ → Type 0 where
  nothing : {k : ℕ} → Parsed d (none, k)
  packet : {p : Packet} {k : ℕ} → 0 < k → k ≤ length d → Parsed d (some p, k)

find_packet-Parsed : (d : List ℕ) → (r : Option Packet × ℕ) × (find_packet d ≡ some r) × Parsed d r
unfolding find_packet
find_packet-Parsed d = go (find_usb_frame-Outcome (length d + 1) d 0 (omega arith) (omega arith))
  where
    go :
        (r : Found) × (find_usb_frame (length d + 1) d 0 ≡ some r) × Outcome d 0 (some r)
        → (r : Option Packet × ℕ) × (find_packet d ≡ some r) × Parsed d r
    go ((none, k), e, o) = ((none, k), rw (e, find_packet), nothing)
    go ((some frame, k), e, o) =
        let (lt, le) = frame_moves d 0 o in
        ((parse_tlp_packet frame, k), rw (e, find_packet), either (parse_tlp_packet frame) lt le)
      where
        either : (p : Option Packet) → 0 < k → k ≤ length d → Parsed d (p, k)
        either none lt le = nothing
        either (some p) lt le = packet lt le

length-drop_shorter : (k : ℕ) (xs : List ℕ) → length (drop k xs) ≤ length xs
length-drop_shorter zero xs = omega arith
length-drop_shorter (suc k) [] = omega arith
length-drop_shorter (suc k) (x ∷ xs) = omega (arith, length-drop_shorter k xs)

-- The inner loop ends on any buffer, and leaves at most the bytes it had.
extract-total :
    (n f : ℕ) (s : MonitorCapture)
    → length s.buffer < f
    → (s' : MonitorCapture) × (extract n f s ≡ some s') × (length s'.buffer ≤ length s.buffer)
unfolding extract accept discard
extract-total n zero s h = absurd (omega arith)
extract-total n (suc f) s h = elim (Bool-cases (ltb (length s.buffer) 32)) [
  | inl few ↦ (s, rw (few, extract), omega arith)
  | inr enough ↦ go (find_packet-Parsed s.buffer) (λ s' lt. extract-total n f s' lt) enough
]
  where
    go :
        (r : Option Packet × ℕ) × (find_packet s.buffer ≡ some r) × Parsed s.buffer r
        → ((s1 : MonitorCapture)
            → length s1.buffer < f
            → (s' : MonitorCapture) × (extract n f s1 ≡ some s')
              × (length s'.buffer ≤ length s1.buffer))
        → ltb (length s.buffer) 32 ≡ false
        → (s' : MonitorCapture) × (extract n (suc f) s ≡ some s')
          × (length s'.buffer ≤ length s.buffer)
    go ((none, k), e, o) rec enough =
        (discard s k, rw (enough, e, extract), length-drop_shorter (at_least_one (k - 32)) s.buffer)
    go ((some p, k), e, packet lt le) rec enough =
        let left = length-drop_le k s.buffer le in
        let (s', x, small) = rec (accept n s p k) (omega (arith, left)) in
        (s', rw (enough, e, extract) x, omega (arith, left, small))

-- Any datagram is taken to the end, whatever its bytes, and the buffer grows by no more than the
-- datagram.
pub receive-total :
    (n : ℕ) (s : MonitorCapture) (bytes : List ℕ)
    → (s' : MonitorCapture) × (receive n s bytes ≡ some s')
      × (length s'.buffer ≤ length s.buffer + length bytes)
unfolding receive appended
receive-total n s bytes =
    let (s', x, small) =
      extract-total n (length s.buffer + length bytes + 1) (appended s bytes)
        (omega (arith, length-append s.buffer bytes)) in
    (s', x, omega (arith, small, length-append s.buffer bytes))
