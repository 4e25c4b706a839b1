-- ===== src/Ats/Atc.antt =====
-- The single-entry translation cache, src/bsa_pcie_exerciser/gateware/ats/atc.py.
pub mod Lookup
use bsa_pcie_exerciser.Prelude.{
  ℕ, ◌+◌, ◌-◌, ◌%◌, ◌^◌, Bool, true, false, ◌&&◌, ◌||◌, not, leb, ◌==◌, if◌then◌else◌,
}

-- The registers of the module.
pub record Atc : Type 0 where
  pub valid : Bool
  pub input_addr : ℕ
  pub range_size : ℕ
  pub input_addr_end : ℕ
  pub output_addr : ℕ
  pub permissions : ℕ
  pub pasid_valid : Bool
  pub pasid_val : ℕ
  pub lookup_hit : Bool
  pub lookup_output : ℕ
  pub lookup_perm : ℕ
  pub invalidated : Bool

-- The input signals of one cycle.
pub record Inputs : Type 0 where
  pub store : Bool
  pub store_input_addr : ℕ
  pub store_output_addr : ℕ
  pub store_range_size : ℕ
  pub store_permissions : ℕ
  pub store_pasid_valid : Bool
  pub store_pasid_val : ℕ
  pub lookup_addr : ℕ
  pub lookup_pasid_valid : Bool
  pub lookup_pasid_val : ℕ
  pub invalidate : Bool

abbrev pub reset : Atc
reset = record {
  valid = false;
  input_addr = 0;
  range_size = 0;
  input_addr_end = 0;
  output_addr = 0;
  permissions = 0;
  pasid_valid = false;
  pasid_val = 0;
  lookup_hit = false;
  lookup_output = 0;
  lookup_perm = 0;
  invalidated = false;
}

unfoldable pub addr_in_range : Atc → Inputs → Bool
addr_in_range s i = leb s.input_addr i.lookup_addr && leb i.lookup_addr s.input_addr_end

unfoldable pub pasid_match : Atc → Inputs → Bool
pasid_match s i =
    (not s.pasid_valid && not i.lookup_pasid_valid)
    || (s.pasid_valid && i.lookup_pasid_valid && s.pasid_val == i.lookup_pasid_val)

unfoldable pub atc_hit : Atc → Inputs → Bool
unfolding addr_in_range pasid_match
atc_hit s i = s.valid && addr_in_range s i && pasid_match s i

-- `output_addr + (lookup_addr - input_addr)`, both in 64 bits.
unfoldable pub translated : Atc → Inputs → ℕ
translated s i = (s.output_addr + (i.lookup_addr + 2 ^ 64 - s.input_addr) % 2 ^ 64) % 2 ^ 64

-- The pipeline registers of a lookup.
unfoldable pub lookup_stage : Atc → Inputs → Atc
unfolding atc_hit translated
lookup_stage s i = record s {
  lookup_hit = atc_hit s i;
  lookup_output = translated s i;
  lookup_perm = s.permissions;
}

-- `_input_addr_end`, precomputed in 64 bits.
abbrev pub end_of : ℕ → ℕ → ℕ
end_of addr size = (addr + size + 2 ^ 64 - 1) % 2 ^ 64

unfoldable pub store_stage : Atc → Inputs → Atc
store_stage s i =
    if i.invalidate
    then record s { valid = false; invalidated = true }
    else if i.store
    then record s {
      valid = true;
      input_addr = i.store_input_addr;
      output_addr = i.store_output_addr;
      range_size = i.store_range_size;
      permissions = i.store_permissions;
      pasid_valid = i.store_pasid_valid;
      pasid_val = i.store_pasid_val;
      invalidated = false;
      input_addr_end = end_of i.store_input_addr i.store_range_size;
    }
    else record s { invalidated = false }

-- One clock cycle. The lookup reads the entry as it was before the cycle.
unfoldable pub step : Atc → Inputs → Atc
unfolding lookup_stage store_stage
step s i =
    let l = lookup_stage s i in
    let t = store_stage s i in
    record t {
      lookup_hit = l.lookup_hit;
      lookup_output = l.lookup_output;
      lookup_perm = l.lookup_perm;
    }
