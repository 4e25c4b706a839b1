-- ===== src/Config/Chain.antt =====
-- What a host finds when it walks the extended capabilities.
use bsa_pcie_exerciser.Prelude.{
  ℕ, zero, suc, ◌+◌, ◌*◌, ◌/◌, ◌^◌, ◌<◌, ◌≡◌, ◌∙◌, refl, ap, false, ◌==◌, if◌then◌else◌, List, [],
  ◌∷◌, slice, arith,
}
use bsa_pcie_exerciser.Config.{
  Config, read_data, ecap_header, ecid_ats, ecid_pasid, ecid_acs, ecid_dpc, ecid_dvsec,
}

-- The identities from a DWORD address on, at most `fuel` of them; a pointer of 0 ends the list.
unfoldable pub walk : ℕ → Config → ℕ → ℕ → List ℕ
walk base s zero a = []
walk base s (suc fuel) a =
    let h = read_data base s a in
    let rest = walk base s fuel (slice h 20 12 / 4) in
    slice h 0 16 ∷ (if slice h 20 12 == 0 then [] else rest)

fields :
    (ecid next : ℕ)
    → ecid < 2 ^ 16
    → next < 2 ^ 12
    → (slice (ecap_header ecid 1 next) 0 16 ≡ ecid) × (slice (ecap_header ecid 1 next) 20 12 ≡ next)
unfolding ecap_header
fields ecid next e n = (omega arith, omega arith)

headers :
    (base : ℕ) (s : Config)
    → (read_data base s base ≡ ecap_header ecid_ats 1 ((base + 2) * 4))
      × (read_data base s (base + 2) ≡ ecap_header ecid_pasid 1 ((base + 4) * 4))
      × (read_data base s (base + 4) ≡ ecap_header ecid_acs 1 ((base + 6) * 4))
      × (read_data base s (base + 6) ≡ ecap_header ecid_dpc 1 ((base + 9) * 4))
      × (read_data base s (base + 9) ≡ ecap_header ecid_dvsec 1 0)
unfolding read_data
headers base s = ground arith

halved : (n : ℕ) → n * 4 / 4 ≡ n
halved n = omega arith

positive : (n : ℕ) → 0 < n → (n * 4 == 0) ≡ false
positive n p = ground arith

walk_on :
    (base : ℕ) (s : Config) (fuel a ecid next : ℕ)
    → read_data base s a ≡ ecap_header ecid 1 (next * 4)
    → ecid < 2 ^ 16
    → 0 < next
    → next < 2 ^ 10
    → walk base s (suc fuel) a ≡ ecid ∷ walk base s fuel next
unfolding walk
walk_on base s fuel a ecid next h e p n =
    let (id, at) = fields ecid (next * 4) e (omega arith) in
    rw (h, id, at, halved next, positive next p) refl

walk_end :
    (base : ℕ) (s : Config) (fuel a ecid : ℕ)
    → read_data base s a ≡ ecap_header ecid 1 0
    → ecid < 2 ^ 16
    → walk base s (suc fuel) a ≡ ecid ∷ []
unfolding walk
walk_end base s fuel a ecid h e =
    let (id, at) = fields ecid 0 e (omega arith) in rw (h, id, at) refl

-- A host that follows the next pointers from the first capability meets ATS, PASID, ACS, DPC and
-- DVSEC, once each and in this order, and then the end of the list, whatever the control registers
-- hold and wherever the capabilities begin below the 512 DWORDs that the address register reaches.
pub walk-capabilities :
    (base : ℕ) (s : Config) (fuel : ℕ)
    → 0 < base
    → base + 11 < 2 ^ 9
    → walk base s (suc (suc (suc (suc (suc fuel))))) base
      ≡ ecid_ats ∷ (ecid_pasid ∷ (ecid_acs ∷ (ecid_dpc ∷ (ecid_dvsec ∷ []))))
walk-capabilities base s fuel p small =
    let (ats, pasid, acs, dpc, dvsec) = headers base s in
    walk_on base s (suc (suc (suc (suc fuel)))) base ecid_ats (base + 2) ats (omega arith)
      (omega arith) (omega arith)
    ∙ ap (λ l. ecid_ats ∷ l)
        (walk_on base s (suc (suc (suc fuel))) (base + 2) ecid_pasid (base + 4) pasid (omega arith)
            (omega arith) (omega arith)
          ∙ ap (λ l. ecid_pasid ∷ l)
              (walk_on base s (suc (suc fuel)) (base + 4) ecid_acs (base + 6) acs (omega arith)
                  (omega arith) (omega arith)
                ∙ ap (λ l. ecid_acs ∷ l)
                    (walk_on base s (suc fuel) (base + 6) ecid_dpc (base + 9) dpc (omega arith)
                        (omega arith) (omega arith)
                      ∙ ap (λ l. ecid_dpc ∷ l)
                          (walk_end base s fuel (base + 9) ecid_dvsec dvsec (omega arith)))))
