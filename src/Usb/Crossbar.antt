-- ===== src/Usb/Crossbar.antt =====
-- The channels of the USB core, src/bsa_pcie_exerciser/gateware/usb/core.py, the class USBCrossbar.
-- Its arbiter and its dispatcher are those of the stream library; the dispatcher gives a packet to
-- the users whose bits of `sel` are set.
use bsa_pcie_exerciser.Prelude.{
  ℕ, suc, ◌+◌, ◌^◌, ◌≡◌, refl, Bool, true, false, ◌||◌, ◌==◌, if◌then◌else◌, Option, none, some,
  List, [], ◌∷◌, ◌++◌, length, arith, Bool-cases, ==_iff, inl, inr, subst, ap, ◌∙◌,
}

unfoldable pub assigned : ℕ → List ℕ → Bool
assigned c [] = false
assigned c (u ∷ us) = u == c || assigned c us

-- get_port: the users with the new channel, or `none` for the ValueError.
unfoldable pub get_port : List ℕ → ℕ → Option (List ℕ)
unfolding assigned
get_port users c = if assigned c users then none else some (users ++ c ∷ [])

-- The calls of a design, one after the other.
unfoldable pub get_ports : List ℕ → List ℕ → Option (List ℕ)
unfolding get_port
get_ports users [] = some users
get_ports users (c ∷ cs) = elim (get_port users c) [ none ↦ none | some us ↦ get_ports us cs ]

-- The cases over `dst`, from place `i` on.
sel_from : ℕ → List ℕ → ℕ → ℕ
sel_from i [] dst = 0
sel_from i (u ∷ us) dst = if dst == u then 2 ^ i else sel_from (suc i) us dst

unfoldable pub sel : List ℕ → ℕ → ℕ
unfolding sel_from
sel users dst = sel_from 0 users dst

abbrev Distinct : List ℕ → Type 0
Distinct [] = Unit {0}
Distinct (u ∷ us) = (assigned u us ≡ false) × Distinct us

assigned-last : (c u : ℕ) (us : List ℕ) → assigned c (us ++ u ∷ []) ≡ (assigned c us || u == c)
unfolding assigned
assigned-last c u [] = ground arith
assigned-last c u (v ∷ us) = ground (arith, assigned-last c u us)

last-Distinct :
    (c : ℕ) (us : List ℕ) → Distinct us → assigned c us ≡ false → Distinct (us ++ c ∷ [])
unfolding assigned
last-Distinct c [] d n = (refl, tt)
last-Distinct c (u ∷ us) (f, d) n =
    (ground (arith, assigned-last u c us), last-Distinct c us d (ground arith))

get_ports-Distinct :
    (us cs : List ℕ) {vs : List ℕ} → Distinct us → get_ports us cs ≡ some vs → Distinct vs
unfolding get_ports
get_ports-Distinct us [] d h = subst Distinct (cc) d
get_ports-Distinct us (c ∷ cs) d h = elim (Bool-cases (assigned c us)) [
  | inl used ↦ cc (rw (used, get_ports) at h)
  | inr new ↦ get_ports-Distinct (us ++ c ∷ []) cs (last-Distinct c us d new) (ground arith)
]

assigned-member : (c : ℕ) (before behind : List ℕ) → assigned c (before ++ c ∷ behind) ≡ true
unfolding assigned
assigned-member c [] behind = ground arith
assigned-member c (u ∷ before) behind = ground (arith, assigned-member c before behind)

sel_from-place :
    (i c : ℕ) (before behind : List ℕ)
    → Distinct (before ++ c ∷ behind)
    → sel_from i (before ++ c ∷ behind) c ≡ 2 ^ (i + length before)
unfolding sel_from assigned
sel_from-place i c [] behind d =
    let same : (c == c) ≡ true = ground arith in rw same (ap (λ k. 2 ^ k) (omega arith))
sel_from-place i c (u ∷ before) behind (f, d) = elim (Bool-cases (c == u)) [
  | inl same ↦ cc (
    assigned-member c before behind,
    ap (λ x. assigned x (before ++ c ∷ behind)) ((==_iff c u).0 same),
  )
  | inr other ↦ rw other (sel_from-place (suc i) c before behind d ∙ ap (λ k. 2 ^ k) (omega arith))
]

sel_from-none : (i c : ℕ) (us : List ℕ) → assigned c us ≡ false → sel_from i us c ≡ 0
unfolding sel_from assigned
sel_from-none i c [] h = refl
sel_from-none i c (u ∷ us) h = ground (arith, sel_from-none (suc i) c us)

-- The users that the calls of get_port give, none of them refused: a packet whose `dst` is the
-- channel of one of them selects exactly the bit of its place, and one with another `dst` nobody.
pub sel-get_ports :
    (cs before behind : List ℕ) (c d : ℕ)
    → get_ports [] cs ≡ some (before ++ c ∷ behind)
    → assigned d (before ++ c ∷ behind) ≡ false
    → (sel (before ++ c ∷ behind) c ≡ 2 ^ length before) × (sel (before ++ c ∷ behind) d ≡ 0)
unfolding sel
sel-get_ports cs before behind c d h n = (
  sel_from-place 0 c before behind (get_ports-Distinct [] cs tt h) ∙ ap (λ k. 2 ^ k) (omega arith),
  sel_from-none 0 d (before ++ c ∷ behind) n,
)
