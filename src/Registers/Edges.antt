-- ===== src/Registers/Edges.antt =====
-- The triggers of the registers: MSICTL, DMACTL and ATSCTL.
use bsa_pcie_exerciser.Prelude.{
  ℕ, ◌≡◌, ◌∙◌, refl, ap, Bool, true, false, ◌&&◌, not, ◌==◌, if◌then◌else◌, arith, Bool-cases, inl,
  inr, bit, put, b2n,
}
use bsa_pcie_exerciser.Registers.{
  Registers, Inputs, reg_addr, strobe, answer, write, bus, strobes, triggers, dma_status,
  ats_control, ats_results, auto_clears, step, msi_trigger, dma_trigger, ats_trigger,
}
use bsa_pcie_exerciser.Registers.Offsets.{reg_msictl, reg_dmactl, reg_atsctl}

pub data Trigger : Type 0 where
  msi dma ats : Trigger

unfoldable pub offset : Trigger → ℕ
offset msi = reg_msictl
offset dma = reg_dmactl
offset ats = reg_atsctl

-- The trigger bit of a word for the control register.
unfoldable pub trigger_bit : Trigger → ℕ → Bool
trigger_bit msi v = bit v 31
trigger_bit dma v = bit v 0
trigger_bit ats v = bit v 0

unfoldable pub control : Trigger → Registers → ℕ
control msi s = s.msictl
control dma s = s.dmactl
control ats s = s.atsctl

unfoldable pub prev : Trigger → Registers → Bool
prev msi s = s.msi_trigger_prev
prev dma s = s.dma_trigger_prev
prev ats s = s.ats_trigger_prev

unfoldable pub busy : Trigger → Inputs → Bool
busy msi i = i.msi_busy
busy dma i = i.dma_busy
busy ats i = i.ats_in_flight

-- The pulse to the engine.
unfoldable pub fires : Trigger → Registers → Inputs → Bool
unfolding msi_trigger dma_trigger ats_trigger
fires msi s i = msi_trigger s i
fires dma s i = dma_trigger s i
fires ats s i = ats_trigger s i

unfoldable pub armed : Trigger → Registers → Bool
unfolding trigger_bit control
armed t s = trigger_bit t (control t s)

unfoldable pub writes : Trigger → Registers → Inputs → Bool
unfolding strobe reg_addr offset
writes t s i = (strobe s i && i.we && not i.poison_mode) && reg_addr i == offset t

-- Putting one bit of a word leaves the others.
low_kept :
    (x v : ℕ)
    → (bit (put x 5 1 v) 0 ≡ bit x 0)
      × (bit (put x 6 1 v) 0 ≡ bit x 0)
      × (bit (put x 7 1 v) 0 ≡ bit x 0)
      × (bit (put x 8 1 v) 0 ≡ bit x 0)
      × (bit (put x 9 1 v) 0 ≡ bit x 0)
low_kept x v = (
  ap (λ b. b == 1) (omega arith),
  ap (λ b. b == 1) (omega arith),
  ap (λ b. b == 1) (omega arith),
  ap (λ b. b == 1) (omega arith),
  ap (λ b. b == 1) (omega arith),
)

cleared : (x : ℕ) → (bit (put x 0 1 0) 0 ≡ false) × (bit (put x 31 1 0) 31 ≡ false)
cleared x = (ground arith, ground arith)

pub fires-armed :
    (t : Trigger) (s : Registers) (i : Inputs)
    → fires t s i ≡ (armed t s && not (prev t s) && not (busy t i))
unfolding fires armed prev busy
fires-armed msi s i = refl
fires-armed dma s i = refl
fires-armed ats s i = refl

control-write :
    (t : Trigger) (a v : ℕ) (u : Registers)
    → control t (write a v u) ≡ (if a == offset t then v else control t u)
unfolding control write offset
control-write t a v u = ground arith

control-bus :
    (t : Trigger) (s : Registers) (i : Inputs)
    → control t (bus s i) ≡ (if writes t s i then i.dat_w else control t s)
unfolding bus writes
control-bus t s i = elim (Bool-cases (strobe s i && i.we && not i.poison_mode)) [
  | inl now ↦ rw now (
      control-write t (reg_addr i) i.dat_w (answer s i)
      ∙ ap (λ v. if reg_addr i == offset t then i.dat_w else v) (kept t))
  | inr not_now ↦ rw not_now (kept t)
]
  where
    kept : (t : Trigger) → control t (answer s i) ≡ control t s
    kept msi = unfold control answer in refl
    kept dma = unfold control answer in refl
    kept ats = unfold control answer in refl

control-results :
    (t : Trigger) (i : Inputs) (u : Registers)
    → (control t (ats_results i u) ≡ control t u) × (prev t (ats_results i u) ≡ prev t u)
unfolding control prev ats_results
control-results t i u = ground arith

clear_one : (q : Bool) (x : ℕ) → bit (if q then put x 0 1 0 else x) 0 ≡ (not q && bit x 0)
clear_one true x = (cleared x).0
clear_one false x = refl

keep_one :
    (q : Bool) (x v : ℕ)
    → (bit (if q then put x 5 1 v else x) 0 ≡ bit x 0)
      × (bit (if q then put x 9 1 v else x) 0 ≡ bit x 0)
keep_one true x v = ((low_kept x v).0, (low_kept x v).4)
keep_one false x v = (refl, refl)

ats-low :
    (s : Registers) (i : Inputs) (u : Registers)
    → bit (ats_control s i u).atsctl 0 ≡ (not (ats_trigger s i) && bit u.atsctl 0)
unfolding ats_control
ats-low s i u =
    let a = if ats_trigger s i then put u.atsctl 0 1 0 else u.atsctl in
    let b = if bit s.atsctl 5 then put a 5 1 0 else a in
    let c = put b 6 1 (b2n i.ats_in_flight) in
    let d = put c 7 1 (if i.ats_clear_results then 0 else b2n i.ats_success) in
    let e = put d 8 1 (if i.ats_clear_results then 0 else b2n i.ats_cacheable) in
    last i.ats_invalidated e
    ∙ ((low_kept d _).3
        ∙ ((low_kept c _).2
            ∙ ((low_kept b _).1
                ∙ ((keep_one (bit s.atsctl 5) a 0).0 ∙ clear_one (ats_trigger s i) u.atsctl))))
  where
    last :
        (q : Bool) (e : ℕ)
        → bit
            (if q
              then put e 9 1 1
              else if strobes i reg_atsctl && bit i.dat_w 9
              then put e 9 1 0
              else e)
            0
          ≡ bit e 0
    last true e = (low_kept e 1).4
    last false e = (keep_one (strobes i reg_atsctl && bit i.dat_w 9) e 0).1

trigger_bit-if :
    (t : Trigger) (q : Bool) (v w : ℕ)
    → trigger_bit t (if q then v else w) ≡ (if q then trigger_bit t v else trigger_bit t w)
trigger_bit-if t true v w = refl
trigger_bit-if t false v w = refl

clear_top : (q : Bool) (x : ℕ) → bit (if q then put x 31 1 0 else x) 31 ≡ (not q && bit x 31)
clear_top true x = (cleared x).1
clear_top false x = refl

armed-later :
    (t : Trigger) (s : Registers) (i : Inputs)
    → armed t (step s i) ≡ (not (fires t s i) && trigger_bit t (control t (bus s i)))
unfolding armed step auto_clears trigger_bit control fires
armed-later msi s i =
    ap (λ v. bit v 31)
      (control-results msi i (ats_control s i (dma_status i (triggers s i (bus s i))))).0
    ∙ (unfold ats_control dma_status triggers in clear_top (msi_trigger s i) (bus s i).msictl)
armed-later dma s i =
    ap (λ v. bit v 0)
      (control-results dma i (ats_control s i (dma_status i (triggers s i (bus s i))))).0
    ∙ (unfold ats_control dma_status triggers in clear_one (dma_trigger s i) (bus s i).dmactl)
armed-later ats s i =
    ap (λ v. bit v 0)
      (control-results ats i (ats_control s i (dma_status i (triggers s i (bus s i))))).0
    ∙ (unfold dma_status triggers in ats-low s i (dma_status i (triggers s i (bus s i))))

pub armed-step :
    (t : Trigger) (s : Registers) (i : Inputs)
    → armed t (step s i)
      ≡ (not (fires t s i) && (if writes t s i then trigger_bit t i.dat_w else armed t s))
unfolding armed
armed-step t s i =
    armed-later t s i
    ∙ ap (λ b. not (fires t s i) && b)
        (ap (trigger_bit t) (control-bus t s i)
          ∙ trigger_bit-if t (writes t s i) i.dat_w (control t s))

pub prev-step : (t : Trigger) (s : Registers) (i : Inputs) → prev t (step s i) ≡ armed t s
unfolding armed step auto_clears trigger_bit control prev
prev-step msi s i =
    (control-results msi i (ats_control s i (dma_status i (triggers s i (bus s i))))).1
    ∙ (unfold ats_control dma_status triggers in refl)
prev-step dma s i =
    (control-results dma i (ats_control s i (dma_status i (triggers s i (bus s i))))).1
    ∙ (unfold ats_control dma_status triggers in refl)
prev-step ats s i =
    (control-results ats i (ats_control s i (dma_status i (triggers s i (bus s i))))).1
    ∙ (unfold ats_control in refl)
