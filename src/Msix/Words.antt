-- ===== src/Msix/Words.antt =====
-- The words of the table's memory under writes with byte enables.
use bsa_pcie_exerciser.Prelude.{
  ℕ, ◌*◌, ◌^◌, ◌≡◌, Bool, true, false, ◌&&◌, not, ◌==◌, if◌then◌else◌, bit, slice, arith,
  Bool-cases, inl, inr,
}
use bsa_pcie_exerciser.Msix.Table.{Inputs, write_be, write_data, upper_dword_write}
use bsa_pcie_exerciser.Prelude.Memory.{store, merge, lane}

unfoldable pub half : ℕ → Bool → ℕ
half w upper = if upper then slice w 32 32 else slice w 0 32

-- The DWORD of a byte address.
unfoldable pub dword : (ℕ → ℕ) → ℕ → ℕ
unfolding half
dword mem adr = half (mem (slice adr 3 12)) (bit adr 2)

merge_none :
    (dat old : ℕ)
    → (slice (merge 0 dat old) 0 32 ≡ slice old 0 32)
      × (slice (merge 0 dat old) 32 32 ≡ slice old 32 32)
unfolding merge lane
merge_none dat old = (omega arith, omega arith)

merge_low :
    (dat old : ℕ)
    → (slice (merge 0xf dat old) 0 32 ≡ slice dat 0 32)
      × (slice (merge 0xf dat old) 32 32 ≡ slice old 32 32)
unfolding merge lane
merge_low dat old = (omega arith, omega arith)

merge_high :
    (dat old : ℕ)
    → (slice (merge 0xf0 (slice dat 0 32 * 2 ^ 32) old) 0 32 ≡ slice old 0 32)
      × (slice (merge 0xf0 (slice dat 0 32 * 2 ^ 32) old) 32 32 ≡ slice dat 0 32)
unfolding merge lane
merge_high dat old = (omega arith, omega arith)

pub store_none :
    (at dat : ℕ) (mem : ℕ → ℕ) (adr : ℕ) → dword (store at 0 dat mem) adr ≡ dword mem adr
unfolding dword store half
store_none at dat mem adr = ground (arith, merge_none dat (mem at))

-- A write of one whole DWORD.
pub record Writes (i : Inputs) : Type 0 where
  pub valid : i.valid ≡ true
  pub first : i.first ≡ true
  pub we : i.we ≡ true
  pub one : i.len ≡ 1
  pub bytes : i.first_be ≡ 0xf
  pub none : i.last_be ≡ 0

-- A read of one DWORD.
pub record Reads (i : Inputs) : Type 0 where
  pub valid : i.valid ≡ true
  pub first : i.first ≡ true
  pub we : i.we ≡ false
  pub one : i.len ≡ 1

eqb : Bool → Bool → Bool
eqb true b = b
eqb false b = not b

same_dword :
    (a b : ℕ)
    → (slice a 2 13 == slice b 2 13) ≡ (slice a 3 12 == slice b 3 12 && eqb (bit a 2) (bit b 2))
unfolding eqb
same_dword a b = ground arith

store_low :
    (q dat : ℕ) (mem : ℕ → ℕ) (p : ℕ) (upper : Bool)
    → half (store q 0xf dat mem p) upper
      ≡ (if p == q && not upper then slice dat 0 32 else half (mem p) upper)
unfolding store half
store_low q dat mem p upper = ground (arith, merge_low dat (mem q))

store_high :
    (q dat : ℕ) (mem : ℕ → ℕ) (p : ℕ) (upper : Bool)
    → half (store q 0xf0 (slice dat 0 32 * 2 ^ 32) mem p) upper
      ≡ (if p == q && upper then slice dat 0 32 else half (mem p) upper)
unfolding store half
store_high q dat mem p upper = ground (arith, merge_high dat (mem q))

lanes :
    (i : Inputs)
    → Writes i
    → (bit i.adr 2 ≡ true → (write_be i ≡ 0xf0) × (write_data i ≡ slice i.dat 0 32 * 2 ^ 32))
      × (bit i.adr 2 ≡ false → (write_be i ≡ 0xf) × (write_data i ≡ i.dat))
unfolding write_be write_data upper_dword_write
lanes i w = ground arith

pub store_dword :
    (i : Inputs) (mem : ℕ → ℕ) (adr : ℕ)
    → Writes i
    → dword (store (slice i.adr 3 12) (write_be i) (write_data i) mem) adr
      ≡ (if slice adr 2 13 == slice i.adr 2 13 then slice i.dat 0 32 else dword mem adr)
unfolding dword eqb
store_dword i mem adr w =
    let (up, low) = lanes i w in
    elim (Bool-cases (bit i.adr 2)) [
      | inl h ↦
          rw
            (
              same_dword adr i.adr,
              (up h).0,
              (up h).1,
              h,
              store_high (slice i.adr 3 12) i.dat mem (slice adr 3 12) (bit adr 2),
            )
            (ground arith)
      | inr h ↦
          rw
            (
              same_dword adr i.adr,
              (low h).0,
              (low h).1,
              h,
              store_low (slice i.adr 3 12) i.dat mem (slice adr 3 12) (bit adr 2),
            )
            (ground arith)
    ]
