-- ===== src/Config/Inject.antt =====
-- The injection of an error by the DVSEC control register.
use bsa_pcie_exerciser.Prelude.{
  ℕ, ◌+◌, ◌*◌, ◌^◌, ◌<◌, ◌≡◌, ◌∙◌, refl, sym, ap, Bool, true, false, ◌&&◌, ◌==◌, if◌then◌else◌,
  List, [], ◌∷◌, bit, put, b2n, arith, run, Bool-cases, inl, inr,
}
use bsa_pcie_exerciser.Prelude.Memory.{lane}
use bsa_pcie_exerciser.Config.{
  Config, Inputs, respond, reset, dw_addr, masked, takes, write, dispatch, fixed, step,
}

lane_small : (be dat old k : ℕ) → lane be dat old k < 2 ^ 8
unfolding lane
lane_small be dat old k = ground arith

third :
    (a b c d : ℕ)
    → a < 2 ^ 8
    → b < 2 ^ 8
    → c < 2 ^ 8
    → bit (a + b * 2 ^ 8 + c * 2 ^ 16 + d * 2 ^ 24) 17 ≡ bit c 1
third a b c d x y z = ap (λ v. v == 1) (omega arith)

bit-lane :
    (be dat old : ℕ) → bit (lane be dat old 2) 1 ≡ (if bit be 2 then bit dat 17 else bit old 17)
unfolding lane
bit-lane be dat old = ground arith

bit-masked :
    (i : Inputs) (old : ℕ)
    → bit (masked i old) 17 ≡ (if bit i.first_be 2 then bit i.dat 17 else bit old 17)
unfolding masked
bit-masked i old =
    third (lane i.first_be i.dat old 0) (lane i.first_be i.dat old 1) (lane i.first_be i.dat old 2)
      (lane i.first_be i.dat old 3) (lane_small i.first_be i.dat old 0)
      (lane_small i.first_be i.dat old 1) (lane_small i.first_be i.dat old 2)
    ∙ bit-lane i.first_be i.dat old

put_bits : (x : ℕ) → (bit (put x 0 16 1) 17 ≡ bit x 17) × (bit (put x 17 1 0) 17 ≡ false)
put_bits x = (ap (λ v. v == 1) (omega arith), ground arith)

unfoldable pub injecting : Config → Bool
injecting s = bit s.dvsec_ctrl 17

module _ (base_dword max_pasid_bits : ℕ) where
  -- A write of the injection bit that is taken.
  unfoldable pub injects : Config → Inputs → Bool
  unfolding takes dw_addr
  injects s i = takes s.state i && dw_addr i == base_dword + 11 && bit i.first_be 2 && bit i.dat 17

  written :
      (a : ℕ) (i : Inputs) (t : Config)
      → (write base_dword a i t).dvsec_ctrl
        ≡ (if a == base_dword + 11 then masked i t.dvsec_ctrl else t.dvsec_ctrl)
  unfolding write
  written a i t = ground arith

  unwritten : (s : Config) (i : Inputs) → (dispatch s.state s i).dvsec_ctrl ≡ s.dvsec_ctrl
  unfolding dispatch
  unwritten s i = ground arith

  -- The control word after the bus, before the later assignments.
  offered : Config → Inputs → Config
  offered s i =
      let t = dispatch s.state s i in
      if takes s.state i then write base_dword (dw_addr i) i t else t

  bit-offered :
      (s : Config) (i : Inputs)
      → injecting s ≡ false
      → bit (offered s i).dvsec_ctrl 17 ≡ injects s i
  unfolding offered injecting injects
  bit-offered s i clear = elim (Bool-cases (takes s.state i)) [
    | inl now ↦ rw now (
        ap (λ v. bit v 17) (written (dw_addr i) i (dispatch s.state s i))
        ∙ choice (dw_addr i == base_dword + 11) (dispatch s.state s i).dvsec_ctrl
            (ap (λ v. bit v 17) (unwritten s i) ∙ clear))
    | inr not_now ↦ rw not_now (ap (λ v. bit v 17) (unwritten s i) ∙ clear)
  ]
    where
      choice :
          (q : Bool) (old : ℕ)
          → bit old 17 ≡ false
          → bit (if q then masked i old else old) 17 ≡ (q && bit i.first_be 2 && bit i.dat 17)
      choice true old h = bit-masked i old ∙ ground arith
      choice false old h = h

  record Inv (s : Config) : Type 0 where
    busy : injecting s ≡ true → s.state ≡ respond

  not_taken : (s : Config) (i : Inputs) → s.state ≡ respond → injects s i ≡ false
  unfolding injects takes
  not_taken s i h = ground arith

  injecting-step :
      (s : Config) (i : Inputs)
      → Inv s
      → injecting (step base_dword max_pasid_bits s i) ≡ injects s i
  unfolding step fixed injecting offered
  injecting-step s i v = elim (Bool-cases (bit s.dvsec_ctrl 17)) [
    | inl set ↦
        rw set
          ((put_bits (put (offered s i).dvsec_ctrl 0 16 1)).1 ∙ sym (not_taken s i (v.busy set)))
    | inr clear ↦ rw clear ((put_bits (offered s i).dvsec_ctrl).0 ∙ bit-offered s i clear)
  ]

  step_state :
      (s : Config) (i : Inputs)
      → (step base_dword max_pasid_bits s i).state ≡ (dispatch s.state s i).state
  unfolding step fixed write
  step_state s i = ground arith

  step-Inv : (s : Config) (i : Inputs) → Inv s → Inv (step base_dword max_pasid_bits s i)
  step-Inv s i v = record { busy = λ h. step_state s i ∙ responds (sym (injecting-step s i v) ∙ h) }
    where
      responds : injects s i ≡ true → (dispatch s.state s i).state ≡ respond
      responds h = unfold injects takes dispatch in ground arith

  -- The pulses of a run, and the writes that are taken and set the injection bit.
  unfoldable pub pulses : Config → List Inputs → ℕ
  pulses s [] = 0
  pulses s (i ∷ is) = b2n s.inject_error_pulse + pulses (step base_dword max_pasid_bits s i) is

  unfoldable pub injected : Config → List Inputs → ℕ
  injected s [] = 0
  injected s (i ∷ is) = b2n (injects s i) + injected (step base_dword max_pasid_bits s i) is

  pulse-step :
      (s : Config) (i : Inputs)
      → (step base_dword max_pasid_bits s i).inject_error_pulse ≡ injecting s
  unfolding step fixed injecting
  pulse-step s i = refl

  conserved :
      (s : Config) (is : List Inputs)
      → Inv s
      → let t = run (step base_dword max_pasid_bits) s is in
        pulses s is + (b2n t.inject_error_pulse + b2n (injecting t))
        ≡ injected s is + (b2n s.inject_error_pulse + b2n (injecting s))
  unfolding run pulses injected
  conserved s [] v = omega arith
  conserved s (i ∷ is) v = omega (
    arith,
    conserved (step base_dword max_pasid_bits s i) is (step-Inv s i v),
    ap b2n (pulse-step s i),
    ap b2n (injecting-step s i v),
  )

  -- Every write that is taken and sets the injection bit gives exactly one pulse of one cycle: on a
  -- run from reset, the pulses and those still to come, at most two, are as many as these writes.
  pub pulses-injected :
      (is : List Inputs)
      → let t = run (step base_dword max_pasid_bits) reset is in
        pulses reset is + (b2n t.inject_error_pulse + b2n (injecting t)) ≡ injected reset is
  pulses-injected is =
      let clear : injecting reset ≡ false = unfold injecting in refl in
      omega (arith, conserved reset is (record { busy = λ h. ground arith }), ap b2n clear)
