-- ===== src/Endpoint/Masters/Scan.antt =====
-- Which source the scan finds.
use bsa_pcie_exerciser.Prelude.{
  ℕ, zero, suc, ◌+◌, ◌-◌, ◌%◌, ◌≡◌, ◌<◌, ◌≤◌, ◌⊎◌, inl, inr, Bool-cases, leb, ltb, ◌∙◌, refl, sym,
  ap, subst, Bool, true, if◌then◌else◌, arith, none, some,
}
use native.Mathlib.Nat.{mod-eq-sub-mod, mod-eq_of_lt}
use bsa_pcie_exerciser.Endpoint.Masters.{scan, next_grant}

-- How far `k` is from `rr`, round the sources.
unfoldable pub away : ℕ → ℕ → ℕ → ℕ
away n rr k = if leb rr k then k - rr else k + n - rr

index_cases :
    (n rr j : ℕ)
    → rr < n
    → j < n
    → ((rr + j < n) × ((rr + j) % n ≡ rr + j)) ⊎ ((n ≤ rr + j) × ((rr + j) % n ≡ rr + j - n))
index_cases n rr j a b = elim (Bool-cases (ltb (rr + j) n)) [
  | inl small ↦ let below : rr + j < n = ground arith in inl (below, mod-eq_of_lt below)
  | inr large ↦
      let over : n ≤ rr + j = ground arith in
      let low : rr + j - n < n = omega arith in inr (over, mod-eq-sub-mod over ∙ mod-eq_of_lt low)
]

away_offset : (n rr j : ℕ) → rr < n → j < n → away n rr ((rr + j) % n) ≡ j
unfolding away
away_offset n rr j a b = ground (arith, index_cases n rr j a b)

at_offset : (n rr k : ℕ) → rr < n → k < n → (rr + away n rr k) % n ≡ k
unfolding away
at_offset n rr k a b = ground (arith, index_cases n rr (away n rr k) a (ground arith))

pub away_below : (n rr k : ℕ) → rr < n → k < n → away n rr k < n
unfolding away
away_below n rr k a b = ground arith

-- What a scan finds among the offsets below `m`.
scan_range :
    (n : ℕ) (valid : ℕ → Bool) (rr m : ℕ)
    → (scan n valid rr m ≡ none) ⊎ ((j : ℕ) × ((j < m) × (scan n valid rr m ≡ some ((rr + j) % n))))
unfolding scan
scan_range n valid rr zero = inl refl
scan_range n valid rr (suc m) = elim (scan_range n valid rr m) [
  | inl before ↦ elim (Bool-cases (valid ((rr + m) % n))) [
    | inl here ↦ inr (m, (omega arith, rw (before, here) refl))
    | inr not_here ↦ inl (rw (before, not_here) refl)
  ]
  | inr (j, (below, found)) ↦ inr (j, (omega arith, rw found refl))
]

scan-early :
    (n : ℕ) (valid : ℕ → Bool) (rr m d : ℕ)
    → d < m
    → valid ((rr + d) % n) ≡ true
    → (j : ℕ) × ((j ≤ d) × (scan n valid rr m ≡ some ((rr + j) % n)))
unfolding scan
scan-early n valid rr zero d small h = absurd (omega arith)
scan-early n valid rr (suc m) d small h = elim (Bool-cases (ltb d m)) [
  | inl below ↦
      let (j, (early, found)) = scan-early n valid rr m d (ground arith) h in
      (j, (early, rw found refl))
  | inr last ↦
      let here : d ≡ m = ground arith in
      elim (scan_range n valid rr m) [
        | inl before ↦ (
          d,
          (
            omega arith,
            rw (before, subst (λ q. valid ((rr + q) % n) ≡ true) here h)
                (ap (λ q. some ((rr + q) % n)) (sym here)),
          ),
        )
        | inr (j, (below, found)) ↦ (j, (omega arith, rw found refl))
      ]
]

-- The next source is no farther than any source that requests.
pub next_grant-near :
    (n : ℕ) (valid : ℕ → Bool) (rr k : ℕ)
    → rr < n
    → k < n
    → valid k ≡ true
    → (away n rr (next_grant n valid rr) ≤ away n rr k) × (next_grant n valid rr < n)
unfolding next_grant
next_grant-near n valid rr k a b h =
    let (j, (early, found)) =
      scan-early n valid rr n (away n rr k) (away_below n rr k a b)
        (subst (λ q. valid q ≡ true) (sym (at_offset n rr k a b)) h) in
    let small : j < n = omega (arith, away_below n rr k a b) in
    let at = away_offset n rr j a small in
    (
      rw (next_grant, found) (omega (arith, at)),
      rw (next_grant, found) (ground (arith, index_cases n rr j a small)),
    )
