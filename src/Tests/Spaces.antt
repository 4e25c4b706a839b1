-- ===== src/Tests/Spaces.antt =====
-- Requests to the configuration space, and the host's window on the buffer.
use bsa_pcie_exerciser.Prelude.{◌+◌, ◌≡◌, refl, Bool, true, false, [], ◌∷◌, b2n, arith, run}
use bsa_pcie_exerciser.Config.{
  reset, step, user_ext_cfg_dword_base, ecid_ats, ecid_pasid, ecid_acs, ecid_dpc, ecid_dvsec,
}
use bsa_pcie_exerciser.Config
use bsa_pcie_exerciser.Config.Inject.{pulses, injected, injecting, pulses-injected}
use bsa_pcie_exerciser.Dma.Window
use bsa_pcie_exerciser.Dma.Window.{Inputs, complete, selected, cpl_data, write_be}
use bsa_pcie_exerciser.Dma.Window.Host.{Writes, Reads, Words}
use bsa_pcie_exerciser.Dma.Window.Bytes.{byte, returned, write-read_bytes}

-- A write of the injection bit, to register 0x36 of the extended register 1.
abbrev inject : Config.Inputs
inject = record {
  valid = true;
  we = true;
  req_id = 0x100;
  tag = 3;
  register_no = 0x36;
  ext_reg = 1;
  first_be = 15;
  dat = 0x2_0000;
  comp_ready = true;
  phy_id = 0x200;
}

pulses-injected_example :
    pulses user_ext_cfg_dword_base 20 reset (inject ∷ inject ∷ inject ∷ inject ∷ [])
      + (b2n
            (run
              (step user_ext_cfg_dword_base 20)
              reset
              (inject ∷ inject ∷ inject ∷ inject ∷ [])).inject_error_pulse
          + b2n (
              injecting (
                run
                  (step user_ext_cfg_dword_base 20)
                  reset
                  (inject ∷ inject ∷ inject ∷ inject ∷ []))))
    ≡ injected user_ext_cfg_dword_base 20 reset (inject ∷ inject ∷ inject ∷ inject ∷ [])
pulses-injected_example =
    pulses-injected user_ext_cfg_dword_base 20 (inject ∷ inject ∷ inject ∷ inject ∷ [])

abbrev beat : Bool → Bool → Inputs
beat offered writing = record {
  valid = offered;
  first = true;
  last = true;
  we = writing;
  adr = 0x40;
  len = 2;
  tag = 1;
  req_id = 0x100;
  dat = 0x1122_3344_5566_7788;
  first_be = 0xc;
  last_be = 0xf;
  cpl_ready = true;
  poison_mode = false;
}

beat-Writes : Writes (beat true true)
beat-Writes = record { valid = refl; first = refl; we = refl }

beat-Reads : Reads (beat true false)
beat-Reads = record { valid = refl; first = refl; we = refl }

reset-Words : Words Window.reset.mem
reset-Words n = omega arith

-- Byte 6, which the write enables.
write-read_bytes_example :
    let u =
      Window.step true
        (Window.step true (Window.step true Window.reset (beat true true)) (beat false true))
        (beat true false) in
    let t = Window.step true (Window.step true u (beat false false)) (beat false false) in
    (t.state ≡ complete)
    × (u.poison_event ≡ false)
    × (byte (cpl_data t) 6 ≡ returned Window.reset.mem (beat true true) (beat true false) 6)
write-read_bytes_example =
    write-read_bytes Window.reset (beat true true) (beat false true) (beat true false)
      (beat false false) (beat false false) 6 refl reset-Words beat-Writes refl beat-Reads
      (omega arith)
