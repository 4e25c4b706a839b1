-- ===== src/Protocol/Frames.antt =====
-- Frames in the stream.
use bsa_pcie_exerciser.Prelude.{
  ℕ, zero, suc, ◌+◌, ◌≤◌, ◌<◌, ◌≡◌, refl, Option, none, some, List, length, Option-cases, ◌⊎◌, inl,
  inr, arith, ltb, Bool-cases, ◌==◌,
}
use bsa_pcie_exerciser.Protocol.{
  Found, retry, answer, examine, find_usb_frame, find, preamble_bytes, word_at, bytes_at,
  usb_monitor_channel, usb_frame_header_size,
}

-- A place that `find` gives is not before the start.
find-le : (d ps : List ℕ) (off : ℕ) {idx : ℕ} → find d ps off ≡ some idx → off ≤ idx
unfolding find
find-le d ps off h = ground arith

-- What a call returns, with the fuel enough: a frame lies inside the data, behind a channel word
-- of the monitor, and behind the place where the search began.
pub record IsFrame (d : List ℕ) (off : ℕ) (frame : List ℕ) (consumed : ℕ) : Type 0 where
  pub start : ℕ
  pub behind : off ≤ start
  pub channel : word_at d (start + 4) ≡ 1
  pub ends : consumed ≡ start + 12 + word_at d (start + 8)
  pub inside : consumed ≤ length d
  pub content : frame ≡ bytes_at d (start + 12) (word_at d (start + 8))

-- The outcome: no frame, or a frame.
pub data Outcome (d : List ℕ) (off : ℕ) : Option Found → Type 0 where
  nothing : {k : ℕ} → Outcome d off (some (none, k))
  found : {frame : List ℕ} {k : ℕ} → IsFrame d off frame k → Outcome d off (some (some frame, k))

Outcome-mono :
    (d : List ℕ) {off off' : ℕ} {r : Option Found} → off ≤ off' → Outcome d off' r → Outcome d off r
Outcome-mono d h nothing = nothing
Outcome-mono d h (found fr) = found (record {
  start = fr.start;
  behind = omega arith;
  channel = fr.channel;
  ends = fr.ends;
  inside = fr.inside;
  content = fr.content;
})

examine-cases :
    (d : List ℕ) (off idx : ℕ)
    → off ≤ idx
    → ((examine d idx ≡ retry) × (idx + 12 ≤ length d))
      ⊎ ((r : Found) × (examine d idx ≡ answer r) × Outcome d off (some r))
unfolding examine
examine-cases d off idx h = elim (Bool-cases (ltb (length d) (idx + 12))) [
  | inl short ↦ inr ((none, idx), rw short, nothing)
  | inr long ↦ elim (Bool-cases (word_at d (idx + 4) == usb_monitor_channel)) [
    | inr other ↦ inl (rw (long, other), ground arith)
    | inl ours ↦
        elim (Bool-cases (ltb (length d) (idx + usb_frame_header_size + word_at d (idx + 8)))) [
          | inl part ↦ inr ((none, idx), rw (long, ours, part), nothing)
          | inr whole ↦ inr (
            (some (bytes_at d (idx + 12) (word_at d (idx + 8))), idx + 12 + word_at d (idx + 8)),
            rw (long, ours, whole),
            found (record {
              start = idx;
              behind = h;
              channel = ground arith;
              ends = refl;
              inside = ground arith;
              content = refl;
            }),
          )
        ]
  ]
]

-- With enough fuel a search from any place ends, and a frame that it gives is one of the data:
-- behind the place where the search began, with the monitor's channel, and as long as its length
-- word says.
pub find_usb_frame-Outcome :
    (f : ℕ) (d : List ℕ) (off : ℕ)
    → 0 < f
    → length d < off + f
    → (r : Found) × (find_usb_frame f d off ≡ some r) × Outcome d off (some r)
unfolding find_usb_frame
find_usb_frame-Outcome zero d off z h = absurd (omega arith)
find_usb_frame-Outcome (suc f) d off z h =
    elim (Bool-cases (ltb (length d) (off + usb_frame_header_size))) [
      | inl short ↦ ((none, length d), rw (short, find_usb_frame), nothing)
      | inr long ↦ elim (Option-cases (find d preamble_bytes off)) [
        | inl no_preamble ↦ ((none, length d), rw (long, no_preamble, find_usb_frame), nothing)
        | inr (idx, at) ↦
            let le = find-le d preamble_bytes off at in
            elim (examine-cases d off idx le) [
              | inr (r, e, o) ↦ (r, rw (long, at, e, find_usb_frame), o)
              | inl (e, room) ↦
                  let (r, e', o) =
                    find_usb_frame-Outcome f d (idx + 1) (omega arith) (omega arith) in
                  (r, rw (long, at, e, find_usb_frame) e', Outcome-mono d (omega arith) o)
            ]
      ]
    ]
