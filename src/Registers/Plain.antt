-- ===== src/Registers/Plain.antt =====
-- The registers that only the bus writes.
use bsa_pcie_exerciser.Prelude.{
  ℕ, ◌≡◌, ◌∙◌, refl, ap, ap₂, Bool, true, false, ◌&&◌, not, ◌==◌, if◌then◌else◌, List, [], ◌∷◌,
  ◌++◌, arith, run, Bool-cases, inl, inr,
}
use bsa_pcie_exerciser.Registers.{
  Registers, Inputs, reset, reg_addr, strobe, answer, write, bus, triggers, dma_status, ats_control,
  ats_results, auto_clears, step,
}
use bsa_pcie_exerciser.Registers.Offsets.{
  reg_intxctl, reg_dma_offset, reg_dma_bus_addr_lo, reg_dma_bus_addr_hi, reg_dma_len, reg_pasid_val,
  reg_rid_ctl,
}

pub data Plain : Type 0 where
  intxctl dma_offset dma_bus_addr_lo dma_bus_addr_hi dma_len pasid_val rid_ctl : Plain

unfoldable pub offset : Plain → ℕ
offset intxctl = reg_intxctl
offset dma_offset = reg_dma_offset
offset dma_bus_addr_lo = reg_dma_bus_addr_lo
offset dma_bus_addr_hi = reg_dma_bus_addr_hi
offset dma_len = reg_dma_len
offset pasid_val = reg_pasid_val
offset rid_ctl = reg_rid_ctl

unfoldable pub value : Plain → Registers → ℕ
value intxctl s = s.intxctl
value dma_offset s = s.dma_offset
value dma_bus_addr_lo s = s.dma_bus_addr_lo
value dma_bus_addr_hi s = s.dma_bus_addr_hi
value dma_len s = s.dma_len
value pasid_val s = s.pasid_val
value rid_ctl s = s.rid_ctl

-- A write to the register, in the cycle in which it is taken.
unfoldable pub writes : Plain → Registers → Inputs → Bool
unfolding strobe reg_addr
writes p s i = (strobe s i && i.we && not i.poison_mode) && reg_addr i == offset p

unfoldable pub written : Plain → Registers → List Inputs → List ℕ
written p s [] = []
written p s (i ∷ is) = (if writes p s i then i.dat_w ∷ [] else []) ++ written p (step s i) is

unfoldable pub last_or : ℕ → List ℕ → ℕ
last_or v [] = v
last_or v (w ∷ ws) = last_or w ws

value-results : (p : Plain) (i : Inputs) (t : Registers) → value p (ats_results i t) ≡ value p t
unfolding value ats_results
value-results p i t = ground arith

value-others :
    (p : Plain) (s : Registers) (i : Inputs) (t : Registers)
    → (value p (auto_clears s t) ≡ value p t)
      × (value p (ats_control s i t) ≡ value p t)
      × (value p (dma_status i t) ≡ value p t)
      × (value p (triggers s i t) ≡ value p t)
      × (value p (answer s i) ≡ value p s)
unfolding value auto_clears ats_control dma_status triggers answer
value-others intxctl s i t = (refl, refl, refl, refl, refl)
value-others dma_offset s i t = (refl, refl, refl, refl, refl)
value-others dma_bus_addr_lo s i t = (refl, refl, refl, refl, refl)
value-others dma_bus_addr_hi s i t = (refl, refl, refl, refl, refl)
value-others dma_len s i t = (refl, refl, refl, refl, refl)
value-others pasid_val s i t = (refl, refl, refl, refl, refl)
value-others rid_ctl s i t = (refl, refl, refl, refl, refl)

value-write :
    (p : Plain) (a v : ℕ) (t : Registers)
    → value p (write a v t) ≡ (if a == offset p then v else value p t)
unfolding value write offset
value-write p a v t = ground arith

value-bus :
    (p : Plain) (s : Registers) (i : Inputs)
    → value p (bus s i) ≡ (if writes p s i then i.dat_w else value p s)
unfolding bus writes
value-bus p s i =
    let kept = (value-others p s i s).4 in
    elim (Bool-cases (strobe s i && i.we && not i.poison_mode)) [
      | inl now ↦
          ap (value p) (rw now refl)
          ∙ (value-write p (reg_addr i) i.dat_w (answer s i)
              ∙ ap₂ (λ q v. if q then i.dat_w else v) (rw now refl) kept)
      | inr not_now ↦ rw not_now kept
    ]

value-step :
    (p : Plain) (s : Registers) (i : Inputs)
    → value p (step s i) ≡ (if writes p s i then i.dat_w else value p s)
unfolding step
value-step p s i =
    let a = triggers s i (bus s i) in
    let b = dma_status i a in
    let c = ats_control s i b in
    (value-others p s i (ats_results i c)).0
    ∙ (value-results p i c
        ∙ ((value-others p s i b).1
            ∙ ((value-others p s i a).2 ∙ ((value-others p s i (bus s i)).3 ∙ value-bus p s i))))

last_or-cons :
    (v w : ℕ) (b : Bool) (ws : List ℕ)
    → last_or (if b then w else v) ws ≡ last_or v ((if b then w ∷ [] else []) ++ ws)
unfolding last_or
last_or-cons v w true ws = refl
last_or-cons v w false ws = refl

pub value-run :
    (p : Plain) (s : Registers) (is : List Inputs)
    → value p (run step s is) ≡ last_or (value p s) (written p s is)
unfolding run written
value-run p s [] = unfold last_or in refl
value-run p s (i ∷ is) =
    value-run p (step s i) is
    ∙ (ap (λ v. last_or v (written p (step s i) is)) (value-step p s i)
        ∙ last_or-cons (value p s) i.dat_w (writes p s i) (written p (step s i) is))

-- A cycle in which the register is read.
pub record Reads (p : Plain) (i : Inputs) : Type 0 where
  pub selected : (i.cyc ≡ true) × (i.stb ≡ true)
  pub reading : i.we ≡ false
  pub at : reg_addr i ≡ offset p
  pub unpoisoned : i.poison_mode ≡ false

-- The bus answers in a cycle whatever the later assignments do.
answered_results :
    (i : Inputs) (t : Registers)
    → ((ats_results i t).ack ≡ t.ack)
      × ((ats_results i t).dat_r ≡ t.dat_r)
      × ((ats_results i t).poison_event ≡ t.poison_event)
unfolding ats_results
answered_results i t = ground arith

answered_write :
    (a v : ℕ) (t : Registers)
    → ((write a v t).ack ≡ t.ack)
      × ((write a v t).dat_r ≡ t.dat_r)
      × ((write a v t).poison_event ≡ t.poison_event)
unfolding write
answered_write a v t = ground arith

answered_bus :
    (s : Registers) (i : Inputs)
    → ((bus s i).ack ≡ (answer s i).ack)
      × ((bus s i).dat_r ≡ (answer s i).dat_r)
      × ((bus s i).poison_event ≡ (answer s i).poison_event)
unfolding bus
answered_bus s i = elim (Bool-cases (strobe s i && i.we && not i.poison_mode)) [
  | inl now ↦ rw now (answered_write (reg_addr i) i.dat_w (answer s i))
  | inr not_now ↦ rw not_now (refl, refl, refl)
]

pub answered :
    (s : Registers) (i : Inputs)
    → ((step s i).ack ≡ (answer s i).ack)
      × ((step s i).dat_r ≡ (answer s i).dat_r)
      × ((step s i).poison_event ≡ (answer s i).poison_event)
unfolding step auto_clears ats_control dma_status triggers
answered s i =
    let (a, d, p) = answered_results i (ats_control s i (dma_status i (triggers s i (bus s i)))) in
    let (a', d', p') = answered_bus s i in (a ∙ a', d ∙ d', p ∙ p')

pub value-reset : (p : Plain) → value p reset ≡ 0
unfolding value
value-reset p = ground arith
