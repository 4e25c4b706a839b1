-- ===== src/Tlp/Translated.antt =====
-- The translation completion of the test bench, as the request engine reads it.
use bsa_pcie_exerciser.Prelude.{
  ℕ, ◌+◌, ◌*◌, ◌/◌, ◌%◌, ◌^◌, ◌<◌, ◌≡◌, ◌∙◌, refl, ap, ap₂, List, ◌∷◌, slice, bit, ◌==◌, arith,
  Bool,
}
use bsa_pcie_exerciser.Ats.Engine.{trans_addr, s_field, permissions_of}
use bsa_pcie_exerciser.Tlp.{
  Beat, dword_to_wire, ats_translation_completion, to_bytes, dwords, completion, shared_beats,
  data_beats,
}

-- The first two DWORDs behind a header of three, with their bytes swapped as the depacketizer does.
unfoldable pub payload : List Beat → ℕ
unfolding dword_to_wire
payload (a ∷ b ∷ c ∷ rest) =
    dword_to_wire (slice b.dat 32 32) + dword_to_wire (slice c.dat 0 32) * 2 ^ 32
payload _ = 0

swapped :
    (a b c d : ℕ)
    → a < 2 ^ 8
    → b < 2 ^ 8
    → c < 2 ^ 8
    → d < 2 ^ 8
    → dword_to_wire (a * 2 ^ 24 + b * 2 ^ 16 + c * 2 ^ 8 + d)
      ≡ a + b * 2 ^ 8 + c * 2 ^ 16 + d * 2 ^ 24
unfolding dword_to_wire
swapped a b c d e f g h = omega arith

joined :
    (w : ℕ)
    → w < 2 ^ 32
    → slice w 0 8 + slice w 8 8 * 2 ^ 8 + slice w 16 8 * 2 ^ 16 + slice w 24 8 * 2 ^ 24 ≡ w
joined w small = omega arith

big : ℕ → ℕ
big w = slice w 0 8 * 2 ^ 24 + slice w 8 8 * 2 ^ 16 + slice w 16 8 * 2 ^ 8 + slice w 24 8

big_small : (w : ℕ) → big w < 2 ^ 32
unfolding big
big_small w = omega arith

back : (w : ℕ) → w < 2 ^ 32 → dword_to_wire (big w) ≡ w
unfolding big
back w small =
    swapped (slice w 0 8) (slice w 8 8) (slice w 16 8) (slice w 24 8) (omega arith) (omega arith)
      (omega arith) (omega arith)
    ∙ joined w small

-- The words of the payload.
lower : ℕ → ℕ → ℕ → ℕ
lower address s_bits permissions =
    slice address 12 20 * 2 ^ 12 + s_bits % 2 ^ 5 * 2 ^ 6 + permissions % 2 ^ 6

payload-built :
    (requester_id completer_id tag address s_bits permissions : ℕ)
    → requester_id < 2 ^ 16
    → tag < 2 ^ 8
    → payload (ats_translation_completion requester_id completer_id tag address s_bits permissions)
      ≡ lower address s_bits permissions + slice address 32 32 * 2 ^ 32
unfolding ats_translation_completion completion to_bytes dwords shared_beats data_beats payload
    lower big
payload-built requester_id completer_id tag address s_bits permissions r t =
    let low = lower address s_bits permissions in
    let high = slice address 32 32 in
    ap₂ (λ x y. x + y * 2 ^ 32)
      (ap dword_to_wire
          (upper_half (requester_id * 2 ^ 16 + tag * 2 ^ 8) (big low) (omega arith) (big_small low))
        ∙ back low (omega arith))
      (ap dword_to_wire (lower_half (big high) (big_small high)) ∙ back high (omega arith))
  where
    upper_half : (a b : ℕ) → a < 2 ^ 32 → b < 2 ^ 32 → slice (a + 0 + b * 2 ^ 32) 32 32 ≡ b
    upper_half a b x y = omega arith

    lower_half : (b : ℕ) → b < 2 ^ 32 → slice (b + 0 * 2 ^ 32) 0 32 ≡ b
    lower_half b y = omega arith

read_back :
    (address s_bits permissions : ℕ)
    → address < 2 ^ 64
    → let d = lower address s_bits permissions + slice address 32 32 * 2 ^ 32 in
      (trans_addr d ≡ address / 2 ^ 12 * 2 ^ 12)
      × (s_field d ≡ s_bits % 2 ^ 5)
      × (bit d 0 ≡ bit permissions 0)
      × (bit d 1 ≡ bit permissions 1)
      × (bit d 2 ≡ bit permissions 2)
      × (bit d 4 ≡ bit permissions 4)
unfolding trans_addr s_field lower
read_back address s_bits permissions small = (
  omega arith,
  omega arith,
  ap (λ v. v == 1) (omega arith),
  ap (λ v. v == 1) (omega arith),
  ap (λ v. v == 1) (omega arith),
  ap (λ v. v == 1) (omega arith),
)

-- The test bench and the request engine agree on a translation completion: from the payload that the
-- test bench builds, with the bytes of each DWORD swapped on the way, the engine reads the address
-- rounded down to a page, the five bits of the size, the mark of an untranslated address and the
-- permissions that it was built from.
pub translation-parsed :
    (requester_id completer_id tag address s_bits permissions : ℕ) (priv : Bool)
    → requester_id < 2 ^ 16
    → tag < 2 ^ 8
    → address < 2 ^ 64
    → let d =
        payload
          (ats_translation_completion requester_id completer_id tag address s_bits permissions) in
      (trans_addr d ≡ address / 2 ^ 12 * 2 ^ 12)
      × (s_field d ≡ s_bits % 2 ^ 5)
      × (permissions_of priv d ≡ permissions_of priv permissions)
      × (bit d 4 ≡ bit permissions 4)
translation-parsed requester_id completer_id tag address s_bits permissions priv r t small =
    let e = payload-built requester_id completer_id tag address s_bits permissions r t in
    let (a, s, p0, p1, p2, u) = read_back address s_bits permissions small in
    (
      ap trans_addr e ∙ a,
      ap s_field e ∙ s,
      ap (permissions_of priv) e ∙ (unfold permissions_of in rw (p0, p1, p2) refl),
      ap (λ v. bit v 4) e ∙ u,
    )
