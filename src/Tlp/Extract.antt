-- ===== src/Tlp/Extract.antt =====
-- The extraction of fields from captured TLPs, tbench/common/tlp_builder.py.
use bsa_pcie_exerciser.Prelude.{
  ℕ, ◌+◌, ◌*◌, ◌^◌, Bool, true, false, ◌||◌, ◌==◌, if◌then◌else◌, bit, slice, Option, none, some,
  List, [], ◌∷◌,
}
use bsa_pcie_exerciser.Tlp.{Beat}

-- A beat that is missing raises an error there, and has no address here.
unfoldable pub extract_address_from_mwr : List Beat → Option ℕ
extract_address_from_mwr [] = none
extract_address_from_mwr (a ∷ []) = none
extract_address_from_mwr (a ∷ b ∷ rest) =
    let fmt = slice a.dat 29 3 in
    if fmt == 2 || fmt == 0
    then some (slice b.dat 2 30 * 4)
    else if fmt == 3 || fmt == 1
    then some (slice b.dat 0 32 * 2 ^ 32 + slice b.dat 34 30 * 4)
    else none

unfoldable pub extract_tag_from_cpl : List Beat → Option ℕ
extract_tag_from_cpl [] = none
extract_tag_from_cpl (a ∷ []) = none
extract_tag_from_cpl (a ∷ b ∷ rest) = some (slice b.dat 8 8)

pub record Pasid : Type 0 where
  pub has_pasid : Bool
  pub pasid_val : ℕ
  pub privileged : Bool
  pub execute : Bool

unfoldable pub extract_pasid_from_tlp : List Beat → Pasid
extract_pasid_from_tlp [] = record {
  has_pasid = false;
  pasid_val = 0;
  privileged = false;
  execute = false;
}
extract_pasid_from_tlp (a ∷ rest) =
    if slice a.dat 24 8 == 0x91
    then record {
      has_pasid = true;
      pasid_val = slice a.dat 0 20;
      privileged = bit a.dat 21;
      execute = bit a.dat 20;
    }
    else record { has_pasid = false; pasid_val = 0; privileged = false; execute = false }

pub record TlpType : Type 0 where
  pub fmt : ℕ
  pub tlp_type : ℕ
  pub has_pasid : Bool

unfoldable pub extract_tlp_type : List Beat → TlpType
extract_tlp_type [] = record { fmt = 0; tlp_type = 0; has_pasid = false }
extract_tlp_type (a ∷ rest) =
    let prefixed = slice a.dat 24 8 == 0x91 in
    let header = if prefixed then slice a.dat 32 32 else slice a.dat 0 32 in
    record { fmt = slice header 29 3; tlp_type = slice header 24 5; has_pasid = prefixed }

pub record Attributes : Type 0 where
  pub attr : ℕ
  pub at : ℕ

unfoldable pub extract_attr_from_tlp : List Beat → Attributes
extract_attr_from_tlp [] = record { attr = 0; at = 0 }
extract_attr_from_tlp (a ∷ rest) = record { attr = slice a.dat 12 2; at = slice a.dat 10 2 }

unfoldable pub extract_tag_from_mrd : List Beat → Option ℕ
extract_tag_from_mrd [] = none
extract_tag_from_mrd (a ∷ rest) = some (slice a.dat 40 8)

unfoldable pub extract_requester_id_from_tlp : List Beat → Option ℕ
extract_requester_id_from_tlp [] = none
extract_requester_id_from_tlp (a ∷ rest) = some (slice a.dat 48 16)
