-- ===== src/Ats/Atc/Lookup.antt =====
-- What the cache answers after a store and after an invalidation.
use bsa_pcie_exerciser.Prelude.{
  ◌+◌, ◌^◌, ◌≤◌, ◌<◌, ◌≡◌, ◌↔◌, ◌⊎◌, true, false, List, [], ◌∷◌, arith, run,
}
use bsa_pcie_exerciser.Ats.Atc.{Atc, Inputs, step}

-- The PASID contexts of a store and of a lookup agree: neither has one, or both have the same.
abbrev pub SameContext : Inputs → Inputs → Type 0
SameContext i j =
    ((i.store_pasid_valid ≡ false) × (j.lookup_pasid_valid ≡ false))
    ⊎ ((i.store_pasid_valid ≡ true)
        × (j.lookup_pasid_valid ≡ true)
        × (i.store_pasid_val ≡ j.lookup_pasid_val))

-- The address looked up lies in the range stored.
abbrev pub Covers : Inputs → Inputs → Type 0
Covers i j =
    (i.store_input_addr ≤ j.lookup_addr) × (j.lookup_addr < i.store_input_addr + i.store_range_size)

-- A store whose range is not empty and does not pass the end of the 64-bit address spaces.
abbrev pub Stores : Inputs → Type 0
Stores i =
    (i.invalidate ≡ false)
    × (i.store ≡ true)
    × (0 < i.store_range_size)
    × (i.store_input_addr + i.store_range_size ≤ 2 ^ 64)
    × (i.store_output_addr + i.store_range_size ≤ 2 ^ 64)

covered :
    (s : Atc) (i j : Inputs)
    → Stores i
    → Covers i j
    → SameContext i j
    → (step (step s i) j).lookup_hit ≡ true
unfolding step
covered s i j st c p = ground arith

hit-Covers :
    (s : Atc) (i j : Inputs)
    → Stores i
    → (step (step s i) j).lookup_hit ≡ true
    → Covers i j × SameContext i j
unfolding step
hit-Covers s i j st h = ground arith

-- After a cycle that stores a range (not empty, not passing 2 ^ 64 on either side, no
-- invalidation in that cycle), the lookup of the next cycle hits exactly when its address lies in
-- the range and its PASID context is the stored one; an address in the range then has the same
-- distance from the translated base as from the stored base, and the permissions are the stored
-- ones.
pub store-lookup :
    (s : Atc) (i j : Inputs)
    → Stores i
    → (((step (step s i) j).lookup_hit ≡ true) ↔ (Covers i j × SameContext i j))
      × (Covers i j
          → (step (step s i) j).lookup_output + i.store_input_addr
            ≡ i.store_output_addr + j.lookup_addr)
      × ((step (step s i) j).lookup_perm ≡ i.store_permissions)
store-lookup s i j st = ((hit-Covers s i j st, λ h. covered s i j st h.0 h.1), output, perm)
  where
    output :
        Covers i j
        → (step (step s i) j).lookup_output + i.store_input_addr
          ≡ i.store_output_addr + j.lookup_addr
    output c = unfold step in ground arith

    perm : (step (step s i) j).lookup_perm ≡ i.store_permissions
    perm = unfold step in ground arith

-- No cycle of the list stores.
abbrev pub NoStore : List Inputs → Type 0
NoStore [] = Unit {0}
NoStore (i ∷ is) = (i.store ≡ false) × NoStore is

keeps_invalid :
    (s : Atc) (i : Inputs) → i.store ≡ false → s.valid ≡ false → (step s i).valid ≡ false
unfolding step
keeps_invalid s i n v = ground arith

run_invalid :
    (s : Atc) (is : List Inputs) → NoStore is → s.valid ≡ false → (run step s is).valid ≡ false
unfolding run
run_invalid s [] n v = v
run_invalid s (i ∷ is) n v = run_invalid (step s i) is n.1 (keeps_invalid s i n.0 v)

step_invalidate : (s : Atc) (i : Inputs) → i.invalidate ≡ true → (step s i).valid ≡ false
unfolding step
step_invalidate s i h = ground arith

invalid_misses : (s : Atc) (j : Inputs) → s.valid ≡ false → (step s j).lookup_hit ≡ false
unfolding step
invalid_misses s j v = ground arith

-- After a cycle that invalidates, even one that stores as well, every lookup misses for as long as
-- nothing is stored: the lookup of the cycle that follows any number of cycles without a store.
pub invalidate-misses :
    (s : Atc) (i : Inputs) (is : List Inputs) (j : Inputs)
    → i.invalidate ≡ true
    → NoStore is
    → (step (run step (step s i) is) j).lookup_hit ≡ false
invalidate-misses s i is j h n =
    invalid_misses _ j (run_invalid (step s i) is n (step_invalidate s i h))

-- An empty range stored at address 0 has the end address 2 ^ 64 - 1, and so hits at every address
-- (in the stored context).
pub store_empty_at_zero :
    (s : Atc) (i j : Inputs)
    → i.invalidate ≡ false
    → i.store ≡ true
    → i.store_range_size ≡ 0
    → i.store_input_addr ≡ 0
    → j.lookup_addr < 2 ^ 64
    → SameContext i j
    → (step (step s i) j).lookup_hit ≡ true
unfolding step
store_empty_at_zero s i j ni st r a b c = ground arith
