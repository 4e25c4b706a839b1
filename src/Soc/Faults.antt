-- ===== src/Soc/Faults.antt =====
-- The error reports to the PCIe core, src/bsa_pcie_exerciser/gateware/soc/base.py, the section on
-- error injection.
use bsa_pcie_exerciser.Prelude.{
  ℕ, ◌+◌, ◌≡◌, refl, Bool, true, false, ◌&&◌, ◌||◌, ◌==◌, if◌then◌else◌, b2n, arith, Bool-cases,
  inl, inr, ◌∙◌,
}
use bsa_pcie_exerciser.Registers
use bsa_pcie_exerciser.Registers.Plain.{answered}
use bsa_pcie_exerciser.Config
use bsa_pcie_exerciser.Soc.{Soc, step, poison_mode, regs_inputs}
use bsa_pcie_exerciser.Soc.Signals.{Inputs}

-- The outputs of the PHY's interface that a code can select; the others stay 0.
pub record Errors : Type 0 where
  pub cor : Bool
  pub internal_cor : Bool
  pub internal_uncor : Bool
  pub poisoned : Bool
  pub cpl_timeout : Bool
  pub cpl_abort : Bool
  pub cpl_unexpect : Bool
  pub malformed : Bool
  pub ecrc : Bool
  pub ur : Bool
  pub acs : Bool
  pub mc_blocked : Bool
  pub atomic_egress_blocked : Bool

abbrev pub no_errors : Errors
no_errors = record {
  cor = false;
  internal_cor = false;
  internal_uncor = false;
  poisoned = false;
  cpl_timeout = false;
  cpl_abort = false;
  cpl_unexpect = false;
  malformed = false;
  ecrc = false;
  ur = false;
  acs = false;
  mc_blocked = false;
  atomic_egress_blocked = false;
}

-- The Case over the error code.
unfoldable pub errors_of : ℕ → Errors
errors_of c =
    if c == 0x0 || c == 0x1 || c == 0x2 || c == 0x3 || c == 0x4 || c == 0x5
    then record no_errors { cor = true }
    else if c == 0x6
    then record no_errors { internal_cor = true }
    else if c == 0x7
    then record no_errors { cor = true }
    else if c == 0xa
    then record no_errors { poisoned = true }
    else if c == 0xc
    then record no_errors { cpl_timeout = true }
    else if c == 0xd
    then record no_errors { cpl_abort = true }
    else if c == 0xe
    then record no_errors { cpl_unexpect = true }
    else if c == 0x10
    then record no_errors { malformed = true }
    else if c == 0x11
    then record no_errors { ecrc = true }
    else if c == 0x12
    then record no_errors { ur = true }
    else if c == 0x13
    then record no_errors { acs = true }
    else if c == 0x15
    then record no_errors { mc_blocked = true }
    else if c == 0x16
    then record no_errors { atomic_egress_blocked = true }
    else record no_errors { internal_uncor = true }

unfoldable pub poison_event : Soc → Inputs → Bool
poison_event s i = s.regs.poison_event || i.dma_handler_poison_event

unfoldable pub inject_pulse : Soc → Inputs → Bool
unfolding poison_event
inject_pulse s i = s.config.inject_error_pulse || poison_event s i

unfoldable pub err_code : Soc → Inputs → ℕ
unfolding poison_event
err_code s i = if poison_event s i then 0x0a else (Config.controls s.config).error_code

unfoldable pub errors : Soc → Inputs → Errors
unfolding inject_pulse err_code errors_of
errors s i = if inject_pulse s i then errors_of (err_code s i) else no_errors

-- How many outputs are set.
unfoldable pub reported : Errors → ℕ
reported e =
    b2n e.cor
    + b2n e.internal_cor
    + b2n e.internal_uncor
    + b2n e.poisoned
    + b2n e.cpl_timeout
    + b2n e.cpl_abort
    + b2n e.cpl_unexpect
    + b2n e.malformed
    + b2n e.ecrc
    + b2n e.ur
    + b2n e.acs
    + b2n e.mc_blocked
    + b2n e.atomic_egress_blocked

reported-of : (c : ℕ) → reported (errors_of c) ≡ 1
unfolding errors_of reported
reported-of c = ground arith

-- A pulse of the injection sets exactly one error output in its cycle, and without one none is set.
reported-errors : (s : Soc) (i : Inputs) → reported (errors s i) ≡ b2n (inject_pulse s i)
unfolding errors
reported-errors s i = elim (Bool-cases (inject_pulse s i)) [
  | inl pulse ↦ rw pulse (reported-of (err_code s i))
  | inr quiet ↦ rw quiet (unfold reported in refl)
]

-- A host that reads any register in poison mode.
pub record PoisonedRead (s : Soc) (i : Inputs) : Type 0 where
  pub asked : (i.cyc && i.stb) ≡ true
  pub fresh : s.regs.ack ≡ false
  pub reads : i.we ≡ false
  pub mode : poison_mode s ≡ true

-- A read of any register in poison mode is answered with all ones, and the next cycle reports a poisoned
-- TLP and nothing else, whatever error the configuration space injects in that cycle.
pub read-poisoned :
    (s : Soc) (i j : Inputs)
    → PoisonedRead s i
    → ((step s i).regs.dat_r ≡ 0xffff_ffff)
      × (errors (step s i) j ≡ record no_errors { poisoned = true })
unfolding step errors inject_pulse err_code poison_event
read-poisoned s i j p =
    let k = regs_inputs s i in
    let (_, read, event) = answered s.regs k in
    let asked : Registers.strobe s.regs k ≡ true =
      unfold Registers.strobe regs_inputs in ground (arith, p.asked, p.fresh) in
    let happened : (Registers.step s.regs k).poison_event ≡ true =
      event
      ∙ (unfold Registers.answer in
          rw asked (unfold regs_inputs in ground (arith, p.mode, p.reads))) in
    (
      read
          ∙ (unfold Registers.answer Registers.read_data in
              rw asked (unfold regs_inputs in rw p.mode refl)),
      rw happened (unfold errors_of in ground arith),
    )
