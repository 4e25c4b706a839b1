-- ===== src/Ats/Invalidation/Reach.antt =====
-- What no run of the handler does, and a wait that is missing.
use bsa_pcie_exerciser.Prelude.{◌+◌, ◌^◌, ◌≤◌, ◌≡◌, ◌⊎◌, true, false, List, [], ◌∷◌, arith, run}
use bsa_pcie_exerciser.Ats.Invalidation.{
  Handler, Inputs, step, idle, check, wait_ats, send_cpl, receive, should_invalidate,
  atc_invalidate, ats_retry,
}
use bsa_pcie_exerciser.Ats.Invalidation.Decision.{page_of, Touched, accept-Page, touched}

-- The request registers, and no invalidation that is under way or waits for a translation.
pub record Low (s : Handler) : Type 0 where
  pub addr : s.inv_addr + 4096 ≤ 2 ^ 32
  pub none : (s.state ≡ idle) ⊎ (s.state ≡ receive) ⊎ (s.state ≡ check) ⊎ (s.state ≡ send_cpl)
  pub sized : (s.inv_size ≡ 0) ⊎ (s.inv_size ≡ 4096)
  pub whole : s.state ≡ check → s.inv_size ≡ 4096

-- A message of one beat has no payload, and so its S bit is clear.
abbrev pub PayloadFollows : Inputs → Type 0
PayloadFollows i = (i.inv_last ≡ false) ⊎ (i.s_bit ≡ false)

-- The cache's entry lies at or above 4 GiB, on every cycle.
abbrev pub High : List Inputs → Type 0
High [] = Unit {0}
High (i ∷ is) = (2 ^ 32 ≤ i.atc_input_addr) × PayloadFollows i × High is

step-Low :
    (s : Handler) (i : Inputs)
    → Low s
    → 2 ^ 32 ≤ i.atc_input_addr
    → PayloadFollows i
    → Low (step s i)
unfolding step
step-Low s i l h p = ground arith

run-Low : (s : Handler) (is : List Inputs) → Low s → High is → Low (run step s is)
unfolding run
run-Low s [] l h = l
run-Low s (i ∷ is) l (a, p, h) = run-Low (step s i) is (step-Low s i l a p) h

Low-quiet : (s : Handler) → Low s → atc_invalidate s ≡ false
unfolding atc_invalidate
Low-quiet s l = ground arith

-- While an entry at or above 4 GiB stands in the cache, it is not invalidated, whatever the requests ask
-- for: on a run of which every cycle shows such an entry to the handler, from a state in which no
-- invalidation is under way or waits for a translation in flight and whose request registers hold a page
-- below 4 GiB and the size of a page or, outside CHECK, 0, and with messages that are well formed,
-- the handler never asks for an invalidation.
pub High-never_invalidated :
    (s : Handler) (is : List Inputs) → Low s → High is → atc_invalidate (run step s is) ≡ false
High-never_invalidated s is l h = Low-quiet (run step s is) (run-Low s is l h)

step_in_flight :
    (s : Handler) (c : Inputs)
    → s.state ≡ check
    → should_invalidate s c ≡ true
    → c.ats_in_flight ≡ true
    → (ats_retry s c ≡ true) × ((step s c).state ≡ wait_ats)
unfolding step ats_retry should_invalidate
step_in_flight s c h t f = ground arith

step_landed :
    (s : Handler) (d : Inputs)
    → s.state ≡ wait_ats
    → d.ats_in_flight ≡ false
    → atc_invalidate (step s d) ≡ true
unfolding step atc_invalidate
step_landed s d h f = ground arith

-- A one-beat page request that touches the entry while a translation is in flight asks the engine
-- for a retry, and invalidates in the cycle after the translation ends, also while a DMA that uses
-- the entry is busy.
pub request-in_flight :
    (s : Handler) (r c d : Inputs)
    → s.state ≡ idle
    → r.inv_valid ≡ true
    → r.inv_first ≡ true
    → r.inv_last ≡ true
    → r.s_bit ≡ false
    → Touched (page_of r.address) r.g_bit c
    → c.ats_in_flight ≡ true
    → d.ats_in_flight ≡ false
    → (ats_retry (step s r) c ≡ true) × (atc_invalidate (step (step (step s r) c) d) ≡ true)
request-in_flight s r c d h v f l b t fl la =
    let p = accept-Page s r h v f l b in
    let e = step_in_flight (step s r) c p.state (touched p c t) fl in
    (e.0, step_landed (step (step s r) c) d e.1 la)
