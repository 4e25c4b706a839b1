-- ===== src/Tlp/Fields.antt =====
-- The first beat of a built TLP, and what is extracted from it.
use bsa_pcie_exerciser.Prelude.{
  ℕ, ◌+◌, ◌*◌, ◌%◌, ◌^◌, ◌<◌, ◌≡◌, refl, false, ◌==◌, some, List, ◌∷◌, slice, arith,
}
use bsa_pcie_exerciser.Tlp.{Beat, request_dw0}
use bsa_pcie_exerciser.Tlp.Extract.{
  extract_tlp_type, extract_attr_from_tlp, extract_tag_from_mrd, extract_requester_id_from_tlp,
}

-- The first beat of a request.
pub record Header (fmt attr at requester_id tag : ℕ) (b : Beat) : Type 0 where
  pub count : ℕ
  pub enables : ℕ
  pub small : enables < 2 ^ 8
  pub low :
      b.dat
      ≡ request_dw0 fmt attr at count + (requester_id * 2 ^ 16 + tag * 2 ^ 8 + enables) * 2 ^ 32

pub word :
    (fmt a q c r t e : ℕ)
    → fmt < 4
    → a < 4
    → q < 4
    → c < 2 ^ 10
    → r < 2 ^ 16
    → t < 2 ^ 8
    → e < 2 ^ 8
    → let d = fmt * 2 ^ 29 + a * 2 ^ 12 + q * 2 ^ 10 + c + (r * 2 ^ 16 + t * 2 ^ 8 + e) * 2 ^ 32 in
      ((slice d 24 8 == 0x91) ≡ false)
      × (slice (slice d 0 32) 29 3 ≡ fmt)
      × (slice (slice d 0 32) 24 5 ≡ 0)
      × (slice d 12 2 ≡ a)
      × (slice d 10 2 ≡ q)
      × (slice d 40 8 ≡ t)
      × (slice d 48 16 ≡ r)
      × (slice d 29 3 ≡ fmt)
word fmt a q c r t e x1 x2 x3 x4 x5 x6 x7 = (
  ground arith,
  omega arith,
  omega arith,
  omega arith,
  omega arith,
  omega arith,
  omega arith,
  omega arith,
)

pub header-extracted :
    (fmt attr at requester_id tag : ℕ) (b : Beat) (rest : List Beat)
    → fmt < 4
    → requester_id < 2 ^ 16
    → tag < 2 ^ 8
    → Header fmt attr at requester_id tag b
    → (extract_tlp_type (b ∷ rest) ≡ record { fmt = fmt; tlp_type = 0; has_pasid = false })
      × (extract_attr_from_tlp (b ∷ rest) ≡ record { attr = attr % 2 ^ 2; at = at % 2 ^ 2 })
      × (extract_tag_from_mrd (b ∷ rest) ≡ some tag)
      × (extract_requester_id_from_tlp (b ∷ rest) ≡ some requester_id)
unfolding extract_tlp_type extract_attr_from_tlp extract_tag_from_mrd extract_requester_id_from_tlp
    request_dw0
header-extracted fmt attr at requester_id tag b rest f r t h =
    let (plain, f1, f2, a1, a2, t1, r1, f3) =
      word fmt (attr % 2 ^ 2) (at % 2 ^ 2) (h.count % 2 ^ 10) requester_id tag h.enables f
        (omega arith) (omega arith) (omega arith) r t h.small in
    rw (h.low, plain, f1, f2, a1, a2, t1, r1) (refl, refl, refl, refl)
