-- ===== src/Tlp/Prefixed.antt =====
-- A captured TLP with a PASID prefix.
use bsa_pcie_exerciser.Prelude.{
  ℕ, ◌+◌, ◌*◌, ◌%◌, ◌^◌, ◌<◌, ◌≡◌, ◌∙◌, refl, ap, Bool, true, false, ◌==◌, List, ◌∷◌, bit, slice,
  b2n, arith,
}
use bsa_pcie_exerciser.Pasid
use bsa_pcie_exerciser.Pasid.{Injector, Inputs, idle, decide, step, source, prefix_dword}
use bsa_pcie_exerciser.Tlp.{Beat}
use bsa_pcie_exerciser.Tlp.Extract.{extract_pasid_from_tlp, extract_tlp_type}

prefix_fields :
    (p x e w : ℕ)
    → p < 2 ^ 20
    → x < 2
    → e < 2
    → w < 2 ^ 32
    → let d = 0x91 * 2 ^ 24 + x * 2 ^ 21 + e * 2 ^ 20 + p + w * 2 ^ 32 in
      ((slice d 24 8 == 0x91) ≡ true)
      × (slice d 0 20 ≡ p)
      × (bit d 21 ≡ (x == 1))
      × (bit d 20 ≡ (e == 1))
      × (slice d 32 32 ≡ w)
prefix_fields p x e w a b c d = (
  ground arith,
  omega arith,
  ap (λ v. v == 1) (omega arith),
  ap (λ v. v == 1) (omega arith),
  omega arith,
)

one_bit : (q : Bool) → (b2n q < 2) × ((b2n q == 1) ≡ q)
one_bit true = (omega arith, refl)
one_bit false = (omega arith, refl)

prefix_sum :
    (b : Pasid.Beat)
    → prefix_dword b
      ≡ 0x91 * 2 ^ 24 + b2n b.privileged * 2 ^ 21 + b2n b.execute * 2 ^ 20 + b.pasid_val % 2 ^ 20
unfolding prefix_dword
prefix_sum b = refl

offered :
    (s : Injector) (i j : Inputs)
    → s.state ≡ idle
    → i.sink_valid ≡ true
    → i.sink.first ≡ true
    → i.sink.pasid_en ≡ true
    → ((source (step s i) j).valid ≡ true)
      × ((source (step s i) j).dat ≡ prefix_dword i.sink + slice i.sink.dat 0 32 * 2 ^ 32)
unfolding step source
offered s i j h v f en = ground arith

pasid_there :
    (b : Beat) (rest : List Beat) (p : ℕ) (x e : Bool)
    → (slice b.dat 24 8 == 0x91) ≡ true
    → slice b.dat 0 20 ≡ p
    → bit b.dat 21 ≡ x
    → bit b.dat 20 ≡ e
    → extract_pasid_from_tlp (b ∷ rest)
      ≡ record { has_pasid = true; pasid_val = p; privileged = x; execute = e }
unfolding extract_pasid_from_tlp
pasid_there b rest p x e h1 h2 h3 h4 = rw (h1, h2, h3, h4) refl

type_there :
    (b inner : Beat) (rest rest' : List Beat)
    → (slice b.dat 24 8 == 0x91) ≡ true
    → (slice inner.dat 24 8 == 0x91) ≡ false
    → slice b.dat 32 32 ≡ slice inner.dat 0 32
    → extract_tlp_type (b ∷ rest) ≡ record (extract_tlp_type (inner ∷ rest')) { has_pasid = true }
unfolding extract_tlp_type
type_there b inner rest rest' h1 h2 h3 = rw (h1, h2, h3) refl

-- The injector and the test bench agree: when the first beat of a TLP asks for a prefix, the test
-- bench extracts from what the injector offers in the next cycle the PASID, the privileged and the
-- execute mark of that beat, and the format and type that it extracts from a TLP which begins with
-- that beat and has no prefix.
pub offered-extracted :
    (s : Injector) (i j : Inputs) (rest rest' : List Beat)
    → s.state ≡ idle
    → i.sink_valid ≡ true
    → i.sink.first ≡ true
    → i.sink.pasid_en ≡ true
    → (slice i.sink.dat 24 8 == 0x91) ≡ false
    → let o = source (step s i) j in
      let out : Beat = record { dat = o.dat; be = o.be } in
      let inner : Beat = record { dat = i.sink.dat; be = i.sink.be } in
      (o.valid ≡ true)
      × (extract_pasid_from_tlp (out ∷ rest) ≡ record {
        has_pasid = true;
        pasid_val = i.sink.pasid_val % 2 ^ 20;
        privileged = i.sink.privileged;
        execute = i.sink.execute;
      })
      × (extract_tlp_type (out ∷ rest)
          ≡ record (extract_tlp_type (inner ∷ rest')) { has_pasid = true })
offered-extracted s i j rest rest' h v f en plain =
    let (valid, dat) = offered s i j h v f en in
    let (x, x_is) = one_bit i.sink.privileged in
    let (e, e_is) = one_bit i.sink.execute in
    let w = slice i.sink.dat 0 32 in
    let (marked, pasid, priv, exec, header) =
      prefix_fields (i.sink.pasid_val % 2 ^ 20) (b2n i.sink.privileged) (b2n i.sink.execute) w
        (omega arith) x e (omega arith) in
    let o = source (step s i) j in
    let out : Beat = record { dat = o.dat; be = o.be } in
    let inner : Beat = record { dat = i.sink.dat; be = i.sink.be } in
    let at = dat ∙ ap (λ q. q + w * 2 ^ 32) (prefix_sum i.sink) in
    (
      valid,
      pasid_there out rest _ _ _ (ap (λ q. slice q 24 8 == 0x91) at ∙ marked)
          (ap (λ q. slice q 0 20) at ∙ pasid) (ap (λ q. bit q 21) at ∙ (priv ∙ x_is))
          (ap (λ q. bit q 20) at ∙ (exec ∙ e_is)),
      type_there out inner rest rest' (ap (λ q. slice q 24 8 == 0x91) at ∙ marked) plain
          (ap (λ q. slice q 32 32) at ∙ header),
    )
