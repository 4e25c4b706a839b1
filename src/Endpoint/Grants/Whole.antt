-- ===== src/Endpoint/Grants/Whole.antt =====
-- Packets pass a lock whole, whoever chooses the next source.
use bsa_pcie_exerciser.Prelude.{
  ℕ, ◌≡◌, refl, sym, subst, Bool, true, false, ◌&&◌, ◌||◌, not, ◌==◌, ==_iff, if◌then◌else◌, List,
  [], ◌∷◌, ◌++◌, arith, Bool-cases, inl, inr,
}
use bsa_pcie_exerciser.Endpoint.{Beat}
use bsa_pcie_exerciser.Endpoint.Grants.{Lock, Inputs, grant, sink_valid, source_ready, track}

-- A beat with the source that it comes from.
pub record Tagged {ℓ} (A : Type ℓ) : Type ℓ where
  pub from : ℕ
  pub beat : Beat A

-- One clock cycle, with the source that would be next.
pub record Cycle {ℓ} (A : Type ℓ) : Type ℓ where
  pub next : ℕ
  pub inputs : Inputs A

module _ {ℓ} {A : Type ℓ} where
  unfoldable pub misplaced : Bool → Beat A → Bool
  misplaced inside b = if inside then b.first else not b.first

  -- The beats of packets, whose first beats alone are marked as first.
  unfoldable pub framed : Bool → List (Beat A) → Bool
  unfolding misplaced
  framed inside [] = true
  framed inside (b ∷ bs) = not (misplaced inside b) && framed (not b.last) bs

  -- Moreover, all the beats of a packet come from one source.
  unfoldable pub whole : Bool → ℕ → List (Tagged A) → Bool
  unfolding misplaced
  whole inside source [] = true
  whole inside source (t ∷ ts) =
      not (misplaced inside t.beat)
      && (not inside || t.from == source)
      && whole (not t.beat.last) t.from ts

  unfoldable pub beats_from : ℕ → List (Tagged A) → List (Beat A)
  beats_from k [] = []
  beats_from k (t ∷ ts) = (if k == t.from then t.beat ∷ [] else []) ++ beats_from k ts

module _ {ℓ} {A : Type ℓ} (n_sources : ℕ) where
  -- One cycle at the side of the packetizer, and at the side of a source.
  unfoldable pub passed : ℕ → Inputs A → List (Tagged A)
  passed g i =
      if sink_valid n_sources g i && i.sink_ready
      then record { from = g; beat = i.beat g } ∷ []
      else []

  unfoldable pub handed : ℕ → Inputs A → ℕ → List (Beat A)
  handed g i k = if i.valid k && source_ready n_sources g i k then i.beat k ∷ [] else []

  unfoldable pub sent : Lock → List (Cycle A) → List (Tagged A)
  unfolding passed
  sent s [] = []
  sent s (c ∷ cs) =
      let g = grant s c.next in passed g c.inputs ++ sent (track n_sources s g c.inputs) cs

  pub handed-passed :
      (g : ℕ) (i : Inputs A) (k : ℕ) (ts : List (Tagged A))
      → beats_from k (passed g i ++ ts) ≡ handed g i k ++ beats_from k ts
  unfolding handed passed source_ready sink_valid beats_from
  handed-passed g i k ts = elim (Bool-cases (k == g)) [
    | inl same ↦
        subst (λ q. beats_from q (passed g i ++ ts) ≡ handed g i q ++ beats_from q ts)
          (sym ((==_iff k g).0 same)) (ground arith)
    | inr other ↦ ground arith
  ]

  track_accepted :
      (s : Lock) (g : ℕ) (i : Inputs A)
      → (sink_valid n_sources g i && i.sink_ready) ≡ true
      → misplaced s.in_packet (i.beat g) ≡ false
      → (s.in_packet ≡ true → g ≡ s.current_grant)
      → track n_sources s g i ≡ record { current_grant = g; in_packet = not (i.beat g).last }
  unfolding track misplaced
  track_accepted s g i acc h e = ground arith

  passed_accepted :
      (g : ℕ) (i : Inputs A)
      → (sink_valid n_sources g i && i.sink_ready) ≡ true
      → passed g i ≡ record { from = g; beat = i.beat g } ∷ []
  unfolding passed
  passed_accepted g i acc = rw acc refl

  still :
      (s : Lock) (g : ℕ) (i : Inputs A)
      → (sink_valid n_sources g i && i.sink_ready) ≡ false
      → (track n_sources s g i ≡ s) × (passed g i ≡ [])
  unfolding track passed
  still s g i acc = (rw acc refl, rw acc refl)

  sent-cons :
      (s : Lock) (c : Cycle A) (cs : List (Cycle A)) (t : Tagged A)
      → passed (grant s c.next) c.inputs ≡ t ∷ []
      → sent s (c ∷ cs) ≡ t ∷ sent (track n_sources s (grant s c.next) c.inputs) cs
  unfolding sent
  sent-cons s c cs t e = rw e refl

  sent-quiet :
      (s : Lock) (c : Cycle A) (cs : List (Cycle A))
      → track n_sources s (grant s c.next) c.inputs ≡ s
      → passed (grant s c.next) c.inputs ≡ []
      → sent s (c ∷ cs) ≡ sent s cs
  unfolding sent
  sent-quiet s c cs same e = rw (e, same) refl

module _ {ℓ} {A : Type ℓ} where
  -- The framing of each source, at the beat of one of them.
  framed_there :
      (inside : Bool) (source : ℕ) (t : Tagged A) (ts : List (Tagged A))
      → (inside ≡ true → t.from ≡ source)
      → framed (inside && t.from == source) (beats_from t.from (t ∷ ts)) ≡ true
      → (misplaced inside t.beat ≡ false) × (framed (not t.beat.last) (beats_from t.from ts) ≡ true)
  unfolding framed beats_from misplaced
  framed_there inside source t ts e h = ground arith

  framed_elsewhere :
      (k : ℕ) (inside : Bool) (source : ℕ) (t : Tagged A) (ts : List (Tagged A))
      → (inside ≡ true → t.from ≡ source)
      → (k == t.from) ≡ false
      → framed (inside && k == source) (beats_from k (t ∷ ts)) ≡ true
      → framed false (beats_from k ts) ≡ true
  unfolding beats_from
  framed_elsewhere k inside source t ts e other h = ground arith

  framed_next :
      (inside : Bool) (source : ℕ) (t : Tagged A) (ts : List (Tagged A))
      → (inside ≡ true → t.from ≡ source)
      → ((k : ℕ) → framed (inside && k == source) (beats_from k (t ∷ ts)) ≡ true)
      → (k : ℕ) → framed (not t.beat.last && k == t.from) (beats_from k ts) ≡ true
  framed_next inside source t ts e h k = elim (Bool-cases (k == t.from)) [
    | inl same ↦
        let there = (framed_there inside source t ts e (h t.from)).1 in
        let k_is : k ≡ t.from = (==_iff k t.from).0 same in
        subst (λ q. framed (not t.beat.last && q == t.from) (beats_from q ts) ≡ true) (sym k_is)
          (ground (arith, there))
    | inr other ↦
        let there = framed_elsewhere k inside source t ts e other (h k) in ground (arith, there)
  ]

  whole_cons :
      (inside : Bool) (source : ℕ) (t : Tagged A) (ts : List (Tagged A))
      → (inside ≡ true → t.from ≡ source)
      → misplaced inside t.beat ≡ false
      → whole (not t.beat.last) t.from ts ≡ true
      → whole inside source (t ∷ ts) ≡ true
  unfolding whole
  whole_cons inside source t ts e h rest = ground arith

module _ {ℓ} {A : Type ℓ} (n_sources : ℕ) where
  abbrev pub Framed : Lock → List (Tagged A) → Type 0
  Framed s ts = (k : ℕ) → framed (s.in_packet && k == s.current_grant) (beats_from k ts) ≡ true

  -- If the beats from each source, taken alone, are whole packets, no packet is interrupted.
  pub sent-whole :
      (s : Lock) (cs : List (Cycle A))
      → Framed s (sent n_sources s cs)
      → whole s.in_packet s.current_grant (sent n_sources s cs) ≡ true
  sent-whole s [] h = unfold whole sent in refl
  sent-whole s (c ∷ cs) h =
      elim (Bool-cases (sink_valid n_sources (grant s c.next) c.inputs && c.inputs.sink_ready)) [
        | inl acc ↦
            let g = grant s c.next in
            let t : Tagged A = record { from = g; beat = c.inputs.beat g } in
            let mine : s.in_packet ≡ true → g ≡ s.current_grant = unfold grant in ground arith in
            let starts = sent-cons n_sources s c cs t (passed_accepted n_sources g c.inputs acc) in
            let h' = subst (Framed s) starts h in
            let placed = (framed_there s.in_packet s.current_grant t _ mine (h' g)).0 in
            let tracked = track_accepted n_sources s g c.inputs acc placed mine in
            let next = framed_next s.in_packet s.current_grant t _ mine h' in
            let rest = sent-whole (track n_sources s g c.inputs) cs (
              subst (λ l. Framed l (sent n_sources (track n_sources s g c.inputs) cs)) (sym tracked)
                next) in
            subst (λ l. whole s.in_packet s.current_grant l ≡ true) (sym starts)
              (whole_cons s.in_packet s.current_grant t _ mine placed (
                subst
                  (λ l.
                    whole l.in_packet l.current_grant
                      (sent n_sources (track n_sources s g c.inputs) cs)
                    ≡ true)
                  tracked rest))
        | inr quiet ↦
            let (same, none) = still n_sources s (grant s c.next) c.inputs quiet in
            let e = sent-quiet n_sources s c cs same none in
            subst (λ l. whole s.in_packet s.current_grant l ≡ true) (sym e)
              (sent-whole s cs (subst (Framed s) e h))
      ]
