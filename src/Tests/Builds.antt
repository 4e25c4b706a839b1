-- ===== src/Tests/Builds.antt =====
-- TLPs of the test benches.
use bsa_pcie_exerciser.Prelude.{◌≡◌, refl, true, false, [], ◌∷◌, bit, arith}
use bsa_pcie_exerciser.Ats.Engine.{trans_addr, s_field, permissions_of}
use bsa_pcie_exerciser.Pasid.{Inputs, reset, step, source}
use bsa_pcie_exerciser.Tlp.{ats_translation_completion, ats_perm_rw}
use bsa_pcie_exerciser.Tlp.Extract.{extract_pasid_from_tlp, extract_tlp_type}
use bsa_pcie_exerciser.Tlp.Prefixed.{offered-extracted}
use bsa_pcie_exerciser.Tlp.Translated.{payload, translation-parsed}

abbrev header : Inputs
header = record {
  sink_valid = true;
  sink = record {
    first = true;
    last = false;
    dat = 0x0100_070f_4000_0001;
    be = 0xff;
    pasid_en = true;
    pasid_val = 0x1234;
    privileged = true;
    execute = false;
  };
  source_ready = true;
}

offered-extracted_example :
    ((source (step reset header) header).valid ≡ true)
    × (extract_pasid_from_tlp (
          record {
            dat = (source (step reset header) header).dat;
            be = (source (step reset header) header).be;
          }
          ∷ [])
        ≡ record { has_pasid = true; pasid_val = 0x1234; privileged = true; execute = false })
    × (extract_tlp_type (
          record {
            dat = (source (step reset header) header).dat;
            be = (source (step reset header) header).be;
          }
          ∷ [])
        ≡ record (extract_tlp_type (record { dat = 0x0100_070f_4000_0001; be = 0xff } ∷ [])) {
          has_pasid = true;
        })
offered-extracted_example = offered-extracted reset header header [] [] refl refl refl refl refl

translation-parsed_example :
    (trans_addr (payload (ats_translation_completion 0x100 0 5 0x1_2345_6000 1 ats_perm_rw))
      ≡ 0x1_2345_6000)
    × (s_field (payload (ats_translation_completion 0x100 0 5 0x1_2345_6000 1 ats_perm_rw)) ≡ 1)
    × (permissions_of true
          (payload (ats_translation_completion 0x100 0 5 0x1_2345_6000 1 ats_perm_rw))
        ≡ permissions_of true ats_perm_rw)
    × (bit (payload (ats_translation_completion 0x100 0 5 0x1_2345_6000 1 ats_perm_rw)) 4 ≡ false)
translation-parsed_example =
    translation-parsed 0x100 0 5 0x1_2345_6000 1 ats_perm_rw true (omega arith) (omega arith)
      (omega arith)
