-- ===== src/Tools/Capture/Frames.antt =====
-- What the receiver makes of datagrams of frames.
use mathlib.Core.List.{append-nil, append_assoc}
use bsa_pcie_exerciser.Prelude.{
  ℕ, zero, suc, ◌+◌, ◌-◌, ◌^◌, ◌≤◌, ◌<◌, ◌≡◌, ◌∙◌, refl, ap, sym, true, false, some, List, [], ◌∷◌,
  ◌++◌, length, drop, drop-add, length-append, length-drop_le, arith, ltb, leb, inl, inr,
  Bool-cases,
}
use bsa_pcie_exerciser.Protocol.{
  Packet, find_usb_frame, parse_tlp_packet, parse_tlp_header, finish_packet,
}
use bsa_pcie_exerciser.Protocol.Stream.{
  frame_bytes, frames-le, stream_bytes, packets_of, frame_here, length_here, next_here,
}
use bsa_pcie_exerciser.Tools.Capture.{
  MonitorCapture, newest, find_packet, accept, extract, appended, receive, receive_loop,
}

-- Contents that hold a packet each, and fit the length word.
abbrev pub AllPackets : List (List ℕ) → Type 0
AllPackets [] = Unit {0}
AllPackets (c ∷ cs) =
    (length c < 2 ^ 32) × ((p : Packet) × (parse_tlp_packet c ≡ some p)) × AllPackets cs

packet-long : (c : List ℕ) (p : Packet) → parse_tlp_packet c ≡ some p → 32 ≤ length c
unfolding parse_tlp_packet parse_tlp_header finish_packet
packet-long c p h = ground arith

drop-front {ℓ} :
    {A : Type ℓ} (n : ℕ) (xs ys : List A) → n ≤ length xs → drop n (xs ++ ys) ≡ drop n xs ++ ys
drop-front zero xs ys h = refl
drop-front (suc n) [] ys h = absurd (omega arith)
drop-front (suc n) (x ∷ xs) ys h = drop-front n xs ys (omega arith)

newest-all {ℓ} : {A : Type ℓ} (n : ℕ) (xs : List A) → length xs ≤ n → newest n xs ≡ xs
unfolding newest
newest-all n xs h = ap (λ k. drop k xs) {y = 0} (omega arith)

-- Keeping the newest entries step by step keeps the newest entries of all.
newest-newest {ℓ} :
    {A : Type ℓ} (n : ℕ) (xs ys : List A) → newest n (newest n xs ++ ys) ≡ newest n (xs ++ ys)
unfolding newest
newest-newest n xs ys = elim (Bool-cases (leb (length xs) n)) [
  | inl short ↦
      ap (λ zs. newest n (zs ++ ys)) {x = newest n xs} {y = xs} (newest-all n xs (ground arith))
  | inr long ↦
      let k = length xs - n in
      let le : k ≤ length xs = omega arith in
      let left : length (drop k xs) ≡ n = ground (arith, length-drop_le k xs le) in
      ap (λ j. drop j (drop k xs ++ ys)) {y = length ys}
        (omega (arith, left, length-append (drop k xs) ys))
      ∙ ap (drop (length ys)) (sym (drop-front k xs ys le))
      ∙ sym (drop-add k (length ys) (xs ++ ys))
      ∙ ap (λ j. drop j (xs ++ ys)) {x = k + length ys} (ground (arith, length-append xs ys))
]

length-newest {ℓ} : {A : Type ℓ} (n : ℕ) (xs : List A) → length (newest n xs) ≤ n
unfolding newest
length-newest n xs = omega (arith, length-drop_le (length xs - n) xs (omega arith))

find_packet-here :
    (d c rest : List ℕ) (p : Packet)
    → length c < 2 ^ 32
    → parse_tlp_packet c ≡ some p
    → d ≡ frame_bytes c ++ rest
    → find_packet d ≡ some (some p, 12 + length c)
unfolding find_packet
find_packet-here d c rest p short holds at =
    let here : find_usb_frame (length d + 1) d 0 ≡ some (some c, 0 + 12 + length c) =
      ap (λ n. find_usb_frame n d 0) {y = suc (length d)} (omega arith)
      ∙ frame_here d 0 c rest short at (length d) in
    rw (here, holds, find_packet)

-- What the receiver holds after the packets `ps`.
pub record Received (buffer_size : ℕ) (s : MonitorCapture) (ps : List Packet) (s' : MonitorCapture)
    : Type 0 where
  pub emptied : s'.buffer ≡ []
  pub kept : s'.packets ≡ newest buffer_size (s.packets ++ ps)
  pub counted : s'.packets_received ≡ s.packets_received + length ps
  pub called : s'.calls ≡ s.calls ++ ps
  pub errors : s'.parse_errors ≡ s.parse_errors

Received-cons :
    (n : ℕ) (s : MonitorCapture) (p : Packet) (k : ℕ) (ps : List Packet) (s' : MonitorCapture)
    → Received n (accept n s p k) ps s'
    → Received n s (p ∷ ps) s'
unfolding accept
Received-cons n s p k ps s' r = record {
  emptied = r.emptied;
  kept =
      r.kept
      ∙ newest-newest n (s.packets ++ (p ∷ [])) ps
      ∙ ap (newest n) (append_assoc s.packets (p ∷ []) ps);
  counted = omega (arith, r.counted);
  called = r.called ∙ append_assoc s.calls (p ∷ []) ps;
  errors = r.errors;
}

extract-frames :
    (n f : ℕ) (s : MonitorCapture) (cs : List (List ℕ))
    → AllPackets cs
    → length cs < f
    → length s.packets ≤ n
    → s.buffer ≡ stream_bytes cs
    → (s' : MonitorCapture) × (extract n f s ≡ some s') × Received n s (packets_of cs) s'
unfolding extract stream_bytes packets_of
extract-frames n zero s cs a l k at = absurd (omega arith)
extract-frames n (suc f) s [] a l k at =
    let done : ltb (length s.buffer) 32 ≡ true = ground (arith, ap length at) in
    (
      s,
      rw (done, extract),
      record {
        emptied = at;
        kept = sym (ap (newest n) (append-nil s.packets) ∙ newest-all n s.packets k);
        counted = omega arith;
        called = sym (append-nil s.calls);
        errors = refl;
      },
    )
extract-frames n (suc f) s (c ∷ cs) (short, (p, holds), a) l k at =
    let rest = stream_bytes cs in
    let more : ltb (length s.buffer) 32 ≡ false =
      ground (arith, length_here s.buffer 0 c rest short at, packet-long c p holds) in
    let here = find_packet-here s.buffer c rest p short holds at in
    let s1 = accept n s p (12 + length c) in
    let (s', e, r) =
      extract-frames n f s1 cs a (omega arith) (length-newest n (s.packets ++ (p ∷ [])))
        (next_here s.buffer 0 c rest short at) in
    (
      s',
      rw (more, here, extract) e,
      rw (holds, packets_of) (Received-cons n s p (12 + length c) (packets_of cs) s' r),
    )

Received-then :
    (n : ℕ) (s s1 s2 : MonitorCapture) (ps qs : List Packet)
    → Received n s ps s1
    → Received n s1 qs s2
    → Received n s (ps ++ qs) s2
Received-then n s s1 s2 ps qs r t = record {
  emptied = t.emptied;
  kept =
      t.kept
      ∙ ap (λ xs. newest n (xs ++ qs)) r.kept
      ∙ newest-newest n (s.packets ++ ps) qs
      ∙ ap (newest n) (append_assoc s.packets ps qs);
  counted = omega (arith, r.counted, t.counted, length-append ps qs);
  called = t.called ∙ ap (λ xs. xs ++ qs) r.called ∙ append_assoc s.calls ps qs;
  errors = t.errors ∙ r.errors;
}

-- Datagrams, each with the contents of its frames.
unfoldable pub datagrams : List (List (List ℕ)) → List (List ℕ)
datagrams [] = []
datagrams (cs ∷ gs) = stream_bytes cs ∷ datagrams gs

unfoldable pub packets_in : List (List (List ℕ)) → List Packet
packets_in [] = []
packets_in (cs ∷ gs) = packets_of cs ++ packets_in gs

abbrev pub AllDatagrams : List (List (List ℕ)) → Type 0
AllDatagrams [] = Unit {0}
AllDatagrams (cs ∷ gs) = AllPackets cs × AllDatagrams gs

length-kept :
    (n : ℕ) (s : MonitorCapture) (ps : List Packet) (s' : MonitorCapture)
    → Received n s ps s'
    → length s'.packets ≤ n
length-kept n s ps s' r = omega (arith, ap length r.kept, length-newest n (s.packets ++ ps))

receive-frames :
    (n : ℕ) (s : MonitorCapture) (cs : List (List ℕ))
    → AllPackets cs
    → length s.packets ≤ n
    → s.buffer ≡ []
    → (s' : MonitorCapture) × (receive n s (stream_bytes cs) ≡ some s')
      × Received n s (packets_of cs) s'
unfolding receive appended
receive-frames n s cs a l e =
    let bytes = stream_bytes cs in
    let (s', x, r) =
      extract-frames n (length s.buffer + length bytes + 1) (appended s bytes) cs a
        (omega (arith, frames-le cs)) l (ap (λ b. b ++ bytes) e) in
    (
      s',
      x,
      record {
        emptied = r.emptied;
        kept = r.kept;
        counted = r.counted;
        called = r.called;
        errors = r.errors;
      },
    )

-- No packet of whole frames is lost: a receiver with an empty buffer takes datagrams of any number
-- of whole frames, each of which holds a packet and may hold the preamble in its content, to the
-- end; the callback has all their packets in order, the deque the newest `buffer_size` of them
-- behind what it had, each is counted, no error is, and the buffer is empty again.
pub receive_loop-frames :
    (n : ℕ) (s : MonitorCapture) (gs : List (List (List ℕ)))
    → AllDatagrams gs
    → length s.packets ≤ n
    → s.buffer ≡ []
    → (s' : MonitorCapture) × (receive_loop n s (datagrams gs) ≡ some s')
      × Received n s (packets_in gs) s'
unfolding receive_loop datagrams packets_in
receive_loop-frames n s [] a l e = (
  s,
  refl,
  record {
    emptied = e;
    kept = sym (ap (newest n) (append-nil s.packets) ∙ newest-all n s.packets l);
    counted = omega arith;
    called = sym (append-nil s.calls);
    errors = refl;
  },
)
receive_loop-frames n s (cs ∷ gs) (a, as') l e =
    let (s1, x, r) = receive-frames n s cs a l e in
    let (s2, y, t) =
      receive_loop-frames n s1 gs as' (length-kept n s (packets_of cs) s1 r) r.emptied in
    (s2, rw (x, receive_loop) y, Received-then n s s1 s2 (packets_of cs) (packets_in gs) r t)
