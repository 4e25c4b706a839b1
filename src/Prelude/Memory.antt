-- ===== src/Prelude/Memory.antt =====
-- A memory of 64-bit words with byte enables, as the ports of Migen's Memory have them.
use Prim.Native.Nat.{ℕ, ◌+◌, ◌*◌, ◌^◌}
use bsa_pcie_exerciser.Prelude.Tests.{◌==◌, if◌then◌else◌}
use bsa_pcie_exerciser.Prelude.Bits.{bit, slice}

-- Byte `k` of a write with byte enables.
unfoldable pub lane : ℕ → ℕ → ℕ → ℕ → ℕ
lane be dat old k = if bit be k then slice dat (8 * k) 8 else slice old (8 * k) 8

unfoldable pub merge : ℕ → ℕ → ℕ → ℕ
unfolding lane
merge be dat old =
    lane be dat old 0
    + lane be dat old 1 * 2 ^ 8
    + lane be dat old 2 * 2 ^ 16
    + lane be dat old 3 * 2 ^ 24
    + lane be dat old 4 * 2 ^ 32
    + lane be dat old 5 * 2 ^ 40
    + lane be dat old 6 * 2 ^ 48
    + lane be dat old 7 * 2 ^ 56

unfoldable pub store : ℕ → ℕ → ℕ → (ℕ → ℕ) → ℕ → ℕ
unfolding merge
store adr be dat mem n = if n == adr then merge be dat (mem adr) else mem n
