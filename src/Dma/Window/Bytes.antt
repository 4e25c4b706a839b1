-- ===== src/Dma/Window/Bytes.antt =====
-- The host's accesses to the buffer, byte by byte.
use bsa_pcie_exerciser.Prelude.{
  ℕ, zero, suc, ◌+◌, ◌-◌, ◌*◌, ◌%◌, ◌^◌, ◌<◌, ◌≡◌, ◌∙◌, refl, sym, ap, Bool, Bool-cases, inl, inr,
  ==_iff, true, false, ◌&&◌, not, ◌==◌, ltb, if◌then◌else◌, bit, slice, arith,
}
use bsa_pcie_exerciser.Prelude.Memory.{merge, lane}
use bsa_pcie_exerciser.Dma.Window.{
  Window, Inputs, idle, complete, step, write_be, selected, cpl_data,
}
use bsa_pcie_exerciser.Dma.Window.Host.{Words, Writes, Reads, lane_small, write-read_window}

-- Byte `k` of a word.
abbrev pub byte : ℕ → ℕ → ℕ
byte w k = slice w (8 * k) 8

-- The byte enables of a beat: the first four bytes by `first_be`, the others by `last_be`.
unfoldable pub enabled : Inputs → ℕ → Bool
enabled i k = if ltb k 4 then bit i.first_be k else bit i.last_be (k - 4)

-- Byte `k` at the QWORD of the read `r`, when the write `w` went before.
unfoldable pub stored : (ℕ → ℕ) → Inputs → Inputs → ℕ → ℕ
unfolding enabled
stored mem w r k =
    if (slice r.adr 3 11 == slice w.adr 3 11) && not w.poison_mode && enabled w k
    then byte w.dat k
    else byte (mem (slice r.adr 3 11)) k

-- Byte `k` of the completion: a read of one DWORD gives the four bytes that bit 2 of its address selects.
unfoldable pub returned : (ℕ → ℕ) → Inputs → Inputs → ℕ → ℕ
unfolding stored
returned mem w r k =
    if r.poison_mode
    then 0xff
    else if r.len == 1
    then (if ltb k 4 then stored mem w r (if bit r.adr 2 then k + 4 else k) else 0)
    else stored mem w r k

-- A statement for the eight bytes of a word.
bytes : (P : ℕ → Type 0) → P 0 → P 1 → P 2 → P 3 → P 4 → P 5 → P 6 → P 7 → (k : ℕ) → k < 8 → P k
bytes P a b c d e f g h zero l = a
bytes P a b c d e f g h (suc zero) l = b
bytes P a b c d e f g h (suc (suc zero)) l = c
bytes P a b c d e f g h (suc (suc (suc zero))) l = d
bytes P a b c d e f g h (suc (suc (suc (suc zero)))) l = e
bytes P a b c d e f g h (suc (suc (suc (suc (suc zero))))) l = f
bytes P a b c d e f g h (suc (suc (suc (suc (suc (suc zero)))))) l = g
bytes P a b c d e f g h (suc (suc (suc (suc (suc (suc (suc zero))))))) l = h
bytes P a b c d e f g h (suc (suc (suc (suc (suc (suc (suc (suc n)))))))) l = absurd (omega arith)

merge-byte : (be dat old k : ℕ) → k < 8 → byte (merge be dat old) k ≡ lane be dat old k
unfolding merge
merge-byte be dat old =
    let s = λ (k : ℕ). lane_small be dat old k in
    bytes (λ k. byte (merge be dat old) k ≡ lane be dat old k)
      (omega (arith, s 0, s 1, s 2, s 3, s 4, s 5, s 6, s 7))
      (omega (arith, s 0, s 1, s 2, s 3, s 4, s 5, s 6, s 7))
      (omega (arith, s 0, s 1, s 2, s 3, s 4, s 5, s 6, s 7))
      (omega (arith, s 0, s 1, s 2, s 3, s 4, s 5, s 6, s 7))
      (omega (arith, s 0, s 1, s 2, s 3, s 4, s 5, s 6, s 7))
      (omega (arith, s 0, s 1, s 2, s 3, s 4, s 5, s 6, s 7))
      (omega (arith, s 0, s 1, s 2, s 3, s 4, s 5, s 6, s 7))
      (omega (arith, s 0, s 1, s 2, s 3, s 4, s 5, s 6, s 7))

enable-bit : (i : Inputs) (k : ℕ) → k < 8 → bit (write_be i) k ≡ enabled i k
unfolding write_be enabled
enable-bit i =
    bytes (λ k. bit (write_be i) k ≡ enabled i k) (ground arith) (ground arith) (ground arith)
      (ground arith) (ground arith) (ground arith) (ground arith) (ground arith)

-- The word that a read finds after the write.
abbrev found : (ℕ → ℕ) → Inputs → Inputs → ℕ
found mem w r =
    if slice r.adr 3 11 == slice w.adr 3 11
    then merge (if w.poison_mode then 0 else write_be w) w.dat (mem (slice w.adr 3 11))
    else mem (slice r.adr 3 11)

lane-bit :
    (be dat old k : ℕ) (b : Bool)
    → bit be k ≡ b
    → lane be dat old k ≡ (if b then byte dat k else byte old k)
unfolding lane
lane-bit be dat old k b h = rw h refl

gated :
    (q : Bool) (w : Inputs) (k : ℕ)
    → k < 8
    → bit (if q then 0 else write_be w) k ≡ (not q && enabled w k)
gated true w = bytes (λ k. bit 0 k ≡ false) refl refl refl refl refl refl refl refl
gated false w = enable-bit w

merged :
    (w : Inputs) (old k : ℕ)
    → k < 8
    → byte (merge (if w.poison_mode then 0 else write_be w) w.dat old) k
      ≡ (if not w.poison_mode && enabled w k then byte w.dat k else byte old k)
merged w old k l = merge-byte _ w.dat old k l ∙ lane-bit _ w.dat old k _ (gated w.poison_mode w k l)

found-byte :
    (mem : ℕ → ℕ) (w r : Inputs) (k : ℕ) → k < 8 → byte (found mem w r) k ≡ stored mem w r k
unfolding stored
found-byte mem w r k l = elim (Bool-cases (slice r.adr 3 11 == slice w.adr 3 11)) [
  | inl same ↦ rw same (
      merged w (mem (slice w.adr 3 11)) k l
      ∙ ap (λ n. if not w.poison_mode && enabled w k then byte w.dat k else byte (mem n) k)
          (sym ((==_iff (slice r.adr 3 11) (slice w.adr 3 11)).0 same)))
  | inr other ↦ rw other refl
]

selected-byte :
    (word len adr k : ℕ)
    → k < 8
    → byte (selected len (adr % 2 ^ 32) word) k ≡ (
        if len == 1
        then (if ltb k 4 then byte word (if bit adr 2 then k + 4 else k) else 0)
        else byte word k)
unfolding selected
selected-byte word len adr =
    bytes
      (λ k. byte (selected len (adr % 2 ^ 32) word) k ≡ (
        if len == 1
        then (if ltb k 4 then byte word (if bit adr 2 then k + 4 else k) else 0)
        else byte word k))
      (ground arith) (ground arith) (ground arith) (ground arith) (ground arith) (ground arith)
      (ground arith) (ground arith)

ones : (k : ℕ) → k < 8 → byte (2 ^ 64 - 1) k ≡ 0xff
ones = bytes (λ k. byte (2 ^ 64 - 1) k ≡ 0xff) refl refl refl refl refl refl refl refl

answered :
    (poison : Bool) (mem : ℕ → ℕ) (w r : Inputs) (k : ℕ)
    → r.poison_mode ≡ poison
    → k < 8
    → byte (if poison then 2 ^ 64 - 1 else selected r.len (r.adr % 2 ^ 32) (found mem w r)) k
      ≡ returned mem w r k
unfolding returned
answered true mem w r k p l = rw p (ones k l)
answered false mem w r k p l = rw p (
    selected-byte (found mem w r) r.len r.adr k l
    ∙ by_half (r.len == 1) (ltb k 4) (bit r.adr 2) refl)
  where
    by_half :
        (one low upper : Bool)
        → ltb k 4 ≡ low
        → (if one
            then (if low then byte (found mem w r) (if upper then k + 4 else k) else 0)
            else byte (found mem w r) k)
          ≡ (if one
              then (if low then stored mem w r (if upper then k + 4 else k) else 0)
              else stored mem w r k)
    by_half false low upper e = found-byte mem w r k l
    by_half true false upper e = refl
    by_half true true true e = found-byte mem w r (k + 4) (ground (arith, e))
    by_half true true false e = found-byte mem w r k l

-- In the simulated variant a host that begins a write of one beat to a window at rest, pauses for a
-- cycle, and begins a read gets its completion two cycles later. For a read of other than one DWORD byte
-- `k` of the completion is byte `k` of the QWORD at the read's address: the byte of the write, if it went
-- to the same QWORD, not in poison mode, and its byte enable is set, which is bit `k` of `first_be` for
-- the first four bytes and bit `k - 4` of `last_be` for the others; else the byte that was there. A read
-- of one DWORD gives in its first four bytes the half that bit 2 of its address selects, and then zeros.
-- A read that begins in poison mode gets all ones, and only such a read is reported.
pub write-read_bytes :
    (s : Window) (w g r c d : Inputs) (k : ℕ)
    → s.state ≡ idle
    → Words s.mem
    → Writes w
    → g.valid ≡ false
    → Reads r
    → k < 8
    → let u = step true (step true (step true s w) g) r in
      let t = step true (step true u c) d in
      (t.state ≡ complete)
      × (u.poison_event ≡ r.poison_mode)
      × (byte (cpl_data t) k ≡ returned s.mem w r k)
write-read_bytes s w g r c d k h small ws gap rs l =
    let (done, event, data_of) = write-read_window s w g r c d h small ws gap rs in
    (done, event, ap (λ n. byte n k) data_of ∙ answered r.poison_mode s.mem w r k refl l)
