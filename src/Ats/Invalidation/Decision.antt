-- ===== src/Ats/Invalidation/Decision.antt =====
-- When an invalidation request reaches the cache.
use bsa_pcie_exerciser.Prelude.{
  ℕ, ◌+◌, ◌*◌, ◌/◌, ◌%◌, ◌^◌, ◌≤◌, ◌<◌, ◌≡◌, ◌↔◌, Bool-cases, ◌⊎◌, true, false, arith, inl, inr,
  Bool, leb, if◌then◌else◌,
}
use bsa_pcie_exerciser.Ats.Invalidation.{
  Handler, Inputs, step, idle, check, send_cpl, should_invalidate, atc_invalidate, ats_retry,
}

-- The 4 KiB page of the request (its low 32 address bits) and the cache's range share an address.
abbrev pub Meets : ℕ → Inputs → Type 0
Meets addr i =
    (y : ℕ) × (addr ≤ y) × (y < addr + 4096) × (i.atc_input_addr ≤ y) × (y ≤ i.atc_input_addr_end)

-- What a page request leaves in the registers.
pub record Page (page : ℕ) (global : Bool) (s : Handler) : Type 0 where
  pub state : s.state ≡ check
  pub addr : s.inv_addr ≡ page
  pub size : s.inv_size ≡ 4096
  pub glob : s.inv_global ≡ global
  pub no_pasid : s.inv_pasid_valid ≡ false
  pub fits : page + 4096 ≤ 2 ^ 32

abbrev pub page_of : ℕ → ℕ
page_of a = a % 2 ^ 32 / 2 ^ 12 * 2 ^ 12

pub accept-Page :
    (s : Handler) (r : Inputs)
    → s.state ≡ idle
    → r.inv_valid ≡ true
    → r.inv_first ≡ true
    → r.inv_last ≡ true
    → r.s_bit ≡ false
    → Page (page_of r.address) r.g_bit (step s r)
unfolding step
accept-Page s r h v f l b = ground arith

meet :
    (a x e : ℕ)
    → a ≤ e
    → x < a + 4096
    → x ≤ e
    → (y : ℕ) × (a ≤ y) × (y < a + 4096) × (x ≤ y) × (y ≤ e)
meet a x e p q r =
    (if leb x a then a else x, ground arith, ground arith, ground arith, ground arith)

-- The cache's entry is touched by the request.
abbrev pub Touched : ℕ → Bool → Inputs → Type 0
Touched addr global i =
    (i.atc_valid ≡ true) × Meets addr i × ((global ≡ true) ⊎ (i.atc_pasid_valid ≡ false))

module _ {a : ℕ} {g : Bool} {s : Handler} (p : Page a g s) (i : Inputs) where
  touches : i.atc_input_addr ≤ i.atc_input_addr_end → should_invalidate s i ≡ true → Touched a g i
  unfolding should_invalidate
  touches ord h = (
    ground arith,
    meet a i.atc_input_addr i.atc_input_addr_end (ground arith) (ground arith) ord,
    ground arith,
  )

  pub touched : Touched a g i → should_invalidate s i ≡ true
  unfolding should_invalidate
  touched t = ground arith

  untouched :
      ¬ Touched a g i → i.atc_input_addr ≤ i.atc_input_addr_end → should_invalidate s i ≡ false
  untouched n ord = elim (Bool-cases (should_invalidate s i)) [
    | inl h ↦ absurd (n (touches ord h))
    | inr h ↦ h
  ]

-- Neither engine holds the entry.
abbrev pub Free : Inputs → Type 0
Free i = (i.ats_in_flight ≡ false) × ((i.dma_busy ≡ false) ⊎ (i.dma_using_atc ≡ false))

check_invalidates :
    (s : Handler) (i : Inputs)
    → s.state ≡ check
    → (atc_invalidate (step s i) ≡ true) ↔ ((should_invalidate s i ≡ true) × Free i)
unfolding step atc_invalidate should_invalidate
check_invalidates s i h = (λ e. ground arith, λ (e, f). ground arith)

-- An idle handler that receives a one-beat page request (S bit clear) decides in the next cycle:
-- it raises the cache's invalidation exactly if the cache has a valid entry, some address lies
-- both in the requested page (of the low 32 address bits) and in the entry's range, the request
-- is global or the entry has no PASID, no translation is in flight, and no DMA that may use the
-- entry is busy. The entry's range is not empty.
pub request-invalidates :
    (s : Handler) (r c : Inputs)
    → s.state ≡ idle
    → r.inv_valid ≡ true
    → r.inv_first ≡ true
    → r.inv_last ≡ true
    → r.s_bit ≡ false
    → c.atc_input_addr ≤ c.atc_input_addr_end
    → (atc_invalidate (step (step s r) c) ≡ true) ↔ (Touched (page_of r.address) r.g_bit c × Free c)
request-invalidates s r c h v f l b ord =
    let p = accept-Page s r h v f l b in
    let (to, from) = check_invalidates (step s r) c p.state in
    (λ e. (touches p c ord (to e).0, (to e).1), λ t. from (touched p c t.0, t.1))

-- The answer to a request that does not touch the entry.
step_untouched :
    (s : Handler) (i : Inputs)
    → s.state ≡ check
    → should_invalidate s i ≡ false
    → ((step s i).state ≡ send_cpl) × (ats_retry s i ≡ false)
unfolding step ats_retry should_invalidate
step_untouched s i h e = ground arith

-- A one-beat page request that does not touch the entry is answered at once, without an
-- invalidation and without a retry of a translation in flight.
pub request-untouched :
    (s : Handler) (r c : Inputs)
    → s.state ≡ idle
    → r.inv_valid ≡ true
    → r.inv_first ≡ true
    → r.inv_last ≡ true
    → r.s_bit ≡ false
    → c.atc_input_addr ≤ c.atc_input_addr_end
    → ¬ Touched (page_of r.address) r.g_bit c
    → ((step (step s r) c).state ≡ send_cpl) × (ats_retry (step s r) c ≡ false)
request-untouched s r c h v f l b ord n =
    let p = accept-Page s r h v f l b in step_untouched (step s r) c p.state (untouched p c n ord)
