-- ===== src/Prelude/Bits.antt =====
-- Signals: one bit is a Bool, a wider signal is a number below a power of two.
use Prim.Native.Nat.{ℕ, zero, suc, ◌+◌, ◌*◌, ◌<◌, ◌/◌, ◌%◌, ◌^◌}
use mathlib.Core.Path.{◌≡◌}
use native.Mathlib.Omega.{arith}
use mathlib.Core.Bool.{Bool, true, false}
use bsa_pcie_exerciser.Prelude.Tests.{◌==◌, if◌then◌else◌}

-- `x[i]`, as a Bool.
abbrev pub bit : ℕ → ℕ → Bool
bit x i = x / 2 ^ i % 2 == 1

-- `x[lo:hi]` with `width` = hi - lo.
abbrev pub slice : ℕ → ℕ → ℕ → ℕ
slice x lo width = x / 2 ^ lo % 2 ^ width

-- `x` after `x[lo:hi].eq(v)` with `width` = hi - lo.
abbrev pub put : ℕ → ℕ → ℕ → ℕ → ℕ
put x lo width v = x % 2 ^ lo + v % 2 ^ width * 2 ^ lo + x / 2 ^ (lo + width) * 2 ^ (lo + width)

-- A one-bit signal where a number is wanted.
abbrev pub b2n : Bool → ℕ
b2n true = 1
b2n false = 0

-- A test runs on every number below `k`.
unfoldable pub passes : (ℕ → Bool) → ℕ → Bool
passes test zero = true
passes test (suc k) = let below = passes test k in if test k then below else false

pub passes-at : (k : ℕ) (test : ℕ → Bool) (i : ℕ) → passes test k ≡ true → i < k → test i ≡ true
unfolding passes
passes-at zero test i run small = absurd (omega arith)
passes-at (suc k) test i run small = ground (arith, passes-at k test i)
