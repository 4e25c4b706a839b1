-- ===== src/Tests/Cache.antt =====
-- The cache with a 4 KiB entry.
use bsa_pcie_exerciser.Prelude.{◌+◌, ◌≡◌, ◌↔◌, refl, true, false, [], ◌∷◌, arith, run}
use bsa_pcie_exerciser.Ats.Atc.{Inputs, step, reset}
use bsa_pcie_exerciser.Ats.Atc.Lookup.{SameContext, Covers, store-lookup, invalidate-misses}

abbrev entry : Inputs
entry = record {
  store = true;
  store_input_addr = 0x1000;
  store_output_addr = 0x5000;
  store_range_size = 0x1000;
  store_permissions = 0x42;
  store_pasid_valid = false;
  store_pasid_val = 0;
  lookup_addr = 0;
  lookup_pasid_valid = false;
  lookup_pasid_val = 0;
  invalidate = false;
}

abbrev look : Inputs
look = record entry { store = false; lookup_addr = 0x1234 }

abbrev clearing : Inputs
clearing = record entry { invalidate = true }

abbrev empty : Inputs
empty = record entry { store_input_addr = 0; store_range_size = 0 }

store-lookup_example :
    (((step (step reset entry) look).lookup_hit ≡ true)
      ↔ (Covers entry look × SameContext entry look))
    × (Covers entry look → (step (step reset entry) look).lookup_output + 0x1000 ≡ 0x5000 + 0x1234)
    × ((step (step reset entry) look).lookup_perm ≡ 0x42)
store-lookup_example =
    store-lookup reset entry look (refl, refl, omega arith, omega arith, omega arith)

invalidate-misses_example :
    (step (run step (step (step reset entry) clearing) (look ∷ [])) look).lookup_hit ≡ false
invalidate-misses_example =
    invalidate-misses (step reset entry) clearing (look ∷ []) look refl (refl, tt)
