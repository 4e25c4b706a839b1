-- ===== src/Endpoint/Masters/Turns.antt =====
-- No source of master requests waits for ever.
use bsa_pcie_exerciser.Prelude.{
  ℕ, ◌+◌, ◌≡◌, ◌<◌, ◌≤◌, inl, inr, Bool-cases, leb, ◌==◌, sym, subst, Bool, true, false, ◌&&◌, not,
  if◌then◌else◌, List, [], ◌∷◌, arith, run, run-inv, b2n,
}
use bsa_pcie_exerciser.Endpoint.{Request}
use bsa_pcie_exerciser.Endpoint.Grants.{Inputs, grant, sink_valid, track}
use bsa_pcie_exerciser.Endpoint.Masters.{Arbiter, reset, next_grant, granted, rotate, step}
use bsa_pcie_exerciser.Endpoint.Masters.Scan.{away, away_below, next_grant-near}

module _ (n_sources : ℕ) where
  -- A packet is finished in the cycle.
  unfoldable pub finishing : Arbiter → Inputs Request → Bool
  finishing s i =
      let g = granted n_sources s i in sink_valid n_sources g i && i.sink_ready && (i.beat g).last

  -- The number of packets that are finished on a run.
  unfoldable pub finished : Arbiter → List (Inputs Request) → ℕ
  unfolding finishing
  finished s [] = 0
  finished s (i ∷ is) = b2n (finishing s i) + finished (step n_sources s i) is

  -- In every cycle of a run the source requests, and another one is granted.
  unfoldable pub waiting : ℕ → Arbiter → List (Inputs Request) → Bool
  waiting k s [] = true
  waiting k s (i ∷ is) =
      i.valid k && not (granted n_sources s i == k) && waiting k (step n_sources s i) is

  -- How many packets may yet be finished, from the turn, the lock and its grant.
  unfoldable limit : ℕ → ℕ → Bool → ℕ → ℕ
  limit k rr inside current =
      if inside && leb (away n_sources rr k) (away n_sources rr current)
      then n_sources
      else away n_sources rr k

  bound : ℕ → Arbiter → ℕ
  unfolding limit
  bound k s = limit k s.rr_state s.lock.in_packet s.lock.current_grant

  record Inv (s : Arbiter) : Type 0 where
    turn : s.rr_state < n_sources

  step-Inv : (s : Arbiter) (i : Inputs Request) → Inv s → Inv (step n_sources s i)
  unfolding step rotate sink_valid
  step-Inv s i v = ground arith

  away-rotate :
      (g rr k : ℕ)
      → g < n_sources
      → k < n_sources
      → (g == k) ≡ false
      → rr < n_sources
      → (away n_sources (rotate n_sources g) k < n_sources)
        × (away n_sources rr g < away n_sources rr k
            → away n_sources (rotate n_sources g) k < away n_sources rr k)
  unfolding away rotate
  away-rotate g rr k a b c d = ground arith

  away_strict :
      (g rr k : ℕ)
      → g < n_sources
      → k < n_sources
      → rr < n_sources
      → (g == k) ≡ false
      → away n_sources rr g ≤ away n_sources rr k
      → away n_sources rr g < away n_sources rr k
  unfolding away
  away_strict g rr k a b c d h = ground arith

  limit_quiet :
      (k rr g current : ℕ) (inside first : Bool)
      → (inside ≡ true → g ≡ current)
      → (inside ≡ false → away n_sources rr g < away n_sources rr k)
      → limit k rr (if first then true else inside) (if first then g else current)
        ≤ limit k rr inside current
  unfolding limit
  limit_quiet k rr g current inside first e near = ground arith

  limit_last :
      (k rr g current : ℕ) (inside : Bool) (current' : ℕ)
      → away n_sources (rotate n_sources g) k < n_sources
      → (away n_sources rr g < away n_sources rr k
          → away n_sources (rotate n_sources g) k < away n_sources rr k)
      → (inside ≡ true → g ≡ current)
      → (inside ≡ false → away n_sources rr g < away n_sources rr k)
      → 1 + limit k (rotate n_sources g) false current' ≤ limit k rr inside current
  unfolding limit
  limit_last k rr g current inside current' far closer e near = ground arith

  step-bound :
      (k : ℕ) (s : Arbiter) (i : Inputs Request)
      → Inv s
      → k < n_sources
      → i.valid k ≡ true
      → (granted n_sources s i == k) ≡ false
      → b2n (finishing s i) + bound k (step n_sources s i) ≤ bound k s
  unfolding bound finishing step track
  step-bound k s i v small h other =
      let g = granted n_sources s i in
      let held : s.lock.in_packet ≡ true → g ≡ s.lock.current_grant =
        unfold granted grant in ground arith in
      let near : s.lock.in_packet ≡ false
          → away n_sources s.rr_state g < away n_sources s.rr_state k =
        λ free.
          let e : g ≡ next_grant n_sources i.valid s.rr_state =
            unfold granted grant in ground arith in
          let (close, range) = next_grant-near n_sources i.valid s.rr_state k v.turn small h in
          away_strict g s.rr_state k (subst (λ q. q < n_sources) (sym e) range) small v.turn other (
            subst (λ q. away n_sources s.rr_state q ≤ away n_sources s.rr_state k) (sym e) close) in
      elim (Bool-cases (sink_valid n_sources g i && i.sink_ready)) [
        | inl acc ↦
            let range : g < n_sources = unfold sink_valid in ground arith in
            let (far, closer) = away-rotate g s.rr_state k range small other v.turn in
            elim (Bool-cases (i.beat g).last) [
              | inl ends ↦ ground (
                arith,
                limit_last k s.rr_state g s.lock.current_grant s.lock.in_packet
                    (if (i.beat g).first then g else s.lock.current_grant) far closer held near,
              )
              | inr goes_on ↦ ground (
                arith,
                limit_quiet k s.rr_state g s.lock.current_grant s.lock.in_packet (i.beat g).first
                    held near,
              )
            ]
        | inr quiet ↦ ground arith
      ]

  finished-bound :
      (k : ℕ) (s : Arbiter) (is : List (Inputs Request))
      → Inv s
      → k < n_sources
      → waiting k s is ≡ true
      → finished s is ≤ bound k s
  unfolding finished waiting
  finished-bound k s [] v small h = omega arith
  finished-bound k s (i ∷ is) v small h =
      let both : (i.valid k ≡ true)
          × ((granted n_sources s i == k) ≡ false)
          × (waiting k (step n_sources s i) is ≡ true) =
        ground arith in
      omega (
        arith,
        step-bound k s i v small both.0 both.1,
        finished-bound k (step n_sources s i) is (step-Inv s i v) small both.2,
      )

  bound_small : (k : ℕ) (s : Arbiter) → Inv s → k < n_sources → bound k s ≤ n_sources
  unfolding bound limit
  bound_small k s v small = ground (arith, away_below n_sources s.rr_state k v.turn small)

  -- The grant comes round: after any run from reset, while a source requests in every cycle and
  -- another one is granted in every cycle, at most as many packets are finished as there are
  -- sources.
  pub finished-waiting :
      (k : ℕ) (before is : List (Inputs Request))
      → k < n_sources
      → waiting k (run (step n_sources) reset before) is ≡ true
      → finished (run (step n_sources) reset before) is ≤ n_sources
  finished-waiting k before is small h =
      let s = run (step n_sources) reset before in
      let v = run-inv (step n_sources) Inv step-Inv reset before (record { turn = omega arith }) in
      omega (arith, finished-bound k s is v small h, bound_small k s v small)
