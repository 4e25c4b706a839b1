-- ===== src/Endpoint/Completions/Order.antt =====
-- The completions of the BARs in the order of the packetizer.
use bsa_pcie_exerciser.Prelude.{
  ℕ, zero, suc, ◌≡◌, ◌<◌, inl, inr, Bool-cases, ltb, ◌∙◌, refl, sym, ap, subst, Bool, true, false,
  ◌&&◌, if◌then◌else◌, List, [], ◌∷◌, ◌++◌, map, arith,
}
use bsa_pcie_exerciser.Endpoint.{Beat, Completion}
use bsa_pcie_exerciser.Endpoint.Grants.{Lock, Inputs, unlocked, sink_valid, source_ready}
use bsa_pcie_exerciser.Endpoint.Grants.Whole.{
  Tagged, Cycle, framed, whole, beats_from, passed, handed, sent, handed-passed, sent-whole,
}
use bsa_pcie_exerciser.Endpoint.Completions.{requesting_below, next_grant, granted, step, forward}

module _ (n_sources : ℕ) where
  -- The beats that the packetizer takes, with the sources that are granted.
  unfoldable pub merged : Lock → List (Inputs Completion) → List (Tagged Completion)
  merged s [] = []
  merged s (i ∷ is) =
      let g = granted n_sources s i in
      let b = i.beat g in
      (if sink_valid n_sources g i && i.sink_ready
        then record {
          from = g;
          beat = record { first = b.first; last = b.last; body = forward b.body };
        }
          ∷ []
        else [])
      ++ merged (step n_sources s i) is

  -- The beats that leave a source.
  unfoldable pub taken : ℕ → Lock → List (Inputs Completion) → List (Beat Completion)
  taken k s [] = []
  taken k s (i ∷ is) =
      (if i.valid k && source_ready n_sources (granted n_sources s i) i k
        then i.beat k ∷ []
        else [])
      ++ taken k (step n_sources s i) is

  cycle : Inputs Completion → Cycle Completion
  cycle i = record { next = next_grant i.valid n_sources; inputs = i }

  merged-sent :
      (s : Lock) (is : List (Inputs Completion)) → merged s is ≡ sent n_sources s (map cycle is)
  unfolding merged sent passed granted step forward cycle
  merged-sent s [] = refl
  merged-sent s (i ∷ is) =
      ap (λ l. passed n_sources (granted n_sources s i) i ++ l)
        (merged-sent (step n_sources s i) is)

  taken-merged :
      (k : ℕ) (s : Lock) (is : List (Inputs Completion)) → taken k s is ≡ beats_from k (merged s is)
  unfolding merged taken passed handed forward
  taken-merged k s [] = unfold beats_from in refl
  taken-merged k s (i ∷ is) =
      ap (λ l. handed n_sources (granted n_sources s i) i k ++ l)
        (taken-merged k (step n_sources s i) is)
      ∙ sym (handed-passed n_sources (granted n_sources s i) i k (merged (step n_sources s i) is))

  -- When the beats that leave each source, taken alone, are those of packets, with the first beat of
  -- each marked as first and no other, so are the beats that the packetizer takes, and all beats of
  -- a packet come from one source; of each source it takes exactly the beats that leave it, in their
  -- order.
  pub merged-whole :
      (is : List (Inputs Completion))
      → ((k : ℕ) → framed false (taken k unlocked is) ≡ true)
      → (whole false 0 (merged unlocked is) ≡ true)
        × ((k : ℕ) → beats_from k (merged unlocked is) ≡ taken k unlocked is)
  merged-whole is h =
      let e = merged-sent unlocked is in
      (
        subst (λ l. whole false 0 l ≡ true) (sym e)
            (sent-whole n_sources unlocked (map cycle is) (λ k.
              subst (λ l. framed false l ≡ true) (taken-merged k unlocked is ∙ ap (beats_from k) e)
                (h k))),
        λ k. sym (taken-merged k unlocked is),
      )

here_last : (k n : ℕ) → k < suc n → ltb k n ≡ false → k ≡ n
here_last k n small h = ground arith

requesting_above :
    (valid : ℕ → Bool) (n k : ℕ) → k < n → valid k ≡ true → requesting_below valid n ≡ true
unfolding requesting_below
requesting_above valid zero k small h = absurd (omega arith)
requesting_above valid (suc n) k small h = elim (Bool-cases (ltb k n)) [
  | inl below ↦ ground (arith, requesting_above valid n k (ground arith) h)
  | inr here ↦ ground (arith, subst (λ j. valid j ≡ true) (here_last k n small here) h)
]

-- A source that requests while no source below it does is the next one.
pub next_grant-lowest :
    (valid : ℕ → Bool) (n k : ℕ)
    → k < n
    → valid k ≡ true
    → requesting_below valid k ≡ false
    → next_grant valid n ≡ k
unfolding next_grant
next_grant-lowest valid zero k small h none = absurd (omega arith)
next_grant-lowest valid (suc n) k small h none = elim (Bool-cases (ltb k n)) [
  | inl below ↦
      let k_below : k < n = ground arith in
      ground
        (arith, requesting_above valid n k k_below h, next_grant-lowest valid n k k_below h none)
  | inr here ↦
      let e = here_last k n small here in
      subst (λ j. next_grant valid (suc j) ≡ k) e (ground (arith, h, none))
]
