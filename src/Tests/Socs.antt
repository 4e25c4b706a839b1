-- ===== src/Tests/Socs.antt =====
-- The SoC: registers, DMA engine, translation, error reports and the transaction monitor together.
use bsa_pcie_exerciser.Prelude.{
  ℕ, ◌^◌, ◌+◌, ◌*◌, ◌≡◌, refl, true, false, List, [], ◌∷◌, ◌++◌, run, drop, arith,
}
use bsa_pcie_exerciser.Registers
use bsa_pcie_exerciser.Registers.Interface
use bsa_pcie_exerciser.Registers.Edges
use bsa_pcie_exerciser.Config
use bsa_pcie_exerciser.Dma
use bsa_pcie_exerciser.Ats
use bsa_pcie_exerciser.Monitor
use bsa_pcie_exerciser.Monitor.Fifo.{Inv}
use bsa_pcie_exerciser.Monitor.Words.{words, first_or}
use bsa_pcie_exerciser.Monitor.Reads.{left, captured as captures}
use bsa_pcie_exerciser.Soc.{
  ats_inputs, config_inputs, ats_enable, Soc, reset, step, regs_inputs, dma_inputs, txn_inputs,
  txn_fifo_depth, poison_mode,
}
use bsa_pcie_exerciser.Soc.Signals.{Inputs, Port}
use bsa_pcie_exerciser.Soc.Transfers.{trigger-lost}
use bsa_pcie_exerciser.Soc.Gate.{Disabled, run-untranslated}
use bsa_pcie_exerciser.Soc.Faults.{errors, no_errors, PoisonedRead, read-poisoned}
use bsa_pcie_exerciser.Soc.Trace.{Reads, read-moves}

abbrev port : Port
port = record {
  source_ready = true;
  sink_valid = false;
  sink_err = false;
  sink_last = false;
  sink_end = false;
  sink_dat = 0;
}

abbrev quiet : Inputs
quiet = record {
  cyc = false;
  stb = false;
  we = false;
  adr = 0;
  dat_w = 0;
  req = record {
    valid = false;
    ready = true;
    first = false;
    last = false;
    we = false;
    adr = 0;
    len = 0;
    dat = 0;
    first_be = 0;
    last_be = 0;
    bar_hit = 0;
  };
  conf = record {
    valid = false;
    we = false;
    req_id = 0;
    tag = 0;
    cfg_type = false;
    bus_number = 0;
    device_no = 0;
    func = 0;
    ext_reg = 0;
    register_no = 0;
    first_be = 0;
    dat = 0;
  };
  conf_comp_ready = true;
  phy_id = 0x100;
  dma_port = port;
  ats_port = port;
  inv = record {
    valid = false;
    first = false;
    last = false;
    address = 0;
    s_bit = false;
    g_bit = false;
    requester_id = 0;
    tag = 0;
    itag = 0;
  };
  msg_ready = true;
  msix_port_ready = true;
  table_request = record {
    valid = false;
    first = false;
    last = false;
    we = false;
    adr = 0;
    len = 0;
    tag = 0;
    req_id = 0;
    dat = 0;
    first_be = 0;
    last_be = 0;
    cpl_ready = true;
  };
  pba_request = record {
    valid = false;
    first = false;
    last = false;
    we = false;
    adr = 0;
    len = 0;
    tag = 0;
    req_id = 0;
    dat = 0;
    first_be = 0;
    last_be = 0;
    cpl_ready = true;
  };
  intx_ready = true;
  dma_handler_poison_event = false;
  usb = record {
    rx_captured = 0;
    rx_dropped = 0;
    tx_captured = 0;
    tx_dropped = 0;
    rx_truncated = 0;
    tx_truncated = 0;
  };
}

-- A write to the register at an address, and a read.
abbrev writes : ℕ → ℕ → Inputs
writes a v = record quiet { cyc = true; stb = true; we = true; adr = a; dat_w = v }

abbrev reads : ℕ → Inputs
reads a = record quiet { cyc = true; stb = true; adr = a }

-- The address and the length are written before the start bit.
abbrev prepared : List Inputs
prepared = writes 0x10 0x8000 ∷ quiet ∷ writes 0x18 64 ∷ quiet ∷ []

abbrev start : Inputs
start = writes 0x08 0x11

unstarted : Edges.armed Edges.dma (run step reset prepared).regs ≡ false
unfolding Edges.armed run step dma_inputs regs_inputs Dma.Engine.step Registers.step
    Ats.Engine.result_we Config.controls Ats.System.step ats_inputs Ats.Engine.step
    Interface.ats_interface Config.step config_inputs Ats.Engine.in_flight Ats.Atc.step
    Ats.Invalidation.atc_invalidate
unstarted = refl

taken :
    Edges.writes Edges.dma
      (run step reset prepared).regs
      (regs_inputs (run step reset prepared) start)
    ≡ true
unfolding Edges.writes run step dma_inputs regs_inputs Dma.Engine.step Registers.step
    Ats.Engine.result_we Config.controls Ats.System.step ats_inputs Ats.Engine.step
    Interface.ats_interface Config.step config_inputs Ats.Engine.in_flight Ats.Atc.step
    Ats.Invalidation.atc_invalidate
taken = refl

-- A transfer whose completion ends with an error while the start bit is written.
abbrev ending : Soc
ending = record reset { dma = record Dma.Engine.reset { state = Dma.Engine.wait_cpl } }

abbrev late : Inputs
late = record start { dma_port = record port { sink_valid = true; sink_err = true } }

late_taken : Edges.writes Edges.dma ending.regs (regs_inputs ending late) ≡ true
unfolding Edges.writes run step dma_inputs regs_inputs Dma.Engine.step Registers.step
    Ats.Engine.result_we Config.controls Ats.System.step ats_inputs Ats.Engine.step
    Interface.ats_interface Config.step config_inputs Ats.Engine.in_flight Ats.Atc.step
    Ats.Invalidation.atc_invalidate
late_taken = refl

late_unstarted : Edges.armed Edges.dma ending.regs ≡ false
unfolding Edges.armed
late_unstarted = refl

late_completes : (step ending late).dma.state ≡ Dma.Engine.complete
unfolding run step dma_inputs regs_inputs Dma.Engine.step Registers.step Ats.Engine.result_we
    Config.controls Ats.System.step ats_inputs Ats.Engine.step Interface.ats_interface Config.step
    config_inputs Ats.Engine.in_flight Ats.Atc.step Ats.Invalidation.atc_invalidate
late_completes = refl

trigger-lost_example :
    (Dma.Engine.busy (step ending late).dma.state ≡ false)
    × ((step (step ending late) quiet).dma.state ≡ Dma.Engine.idle)
    × (Edges.armed Edges.dma (step (step ending late) quiet).regs ≡ false)
trigger-lost_example = trigger-lost ending late quiet late_unstarted late_taken refl late_completes

-- Software triggers a translation that the host has not enabled.
abbrev asked : List Inputs
asked = writes 0x24 1 ∷ quiet ∷ []

asked-Disabled : Disabled reset asked
unfolding ats_enable run step dma_inputs regs_inputs Dma.Engine.step Registers.step
    Ats.Engine.result_we Config.controls Ats.System.step ats_inputs Ats.Engine.step
    Interface.ats_interface Config.step config_inputs Ats.Engine.in_flight Ats.Atc.step
    Ats.Invalidation.atc_invalidate
asked-Disabled = (refl, (refl, refl))

run-untranslated_example :
    ((run step reset asked).ats.engine.state ≡ Ats.Engine.idle)
    × ((run step reset asked).ats.atc.valid ≡ false)
    × (Dma.Engine.effective_addr
          (run step reset asked).dma
          (dma_inputs (run step reset asked) quiet)
        ≡ (run step reset asked).dma.current_addr)
run-untranslated_example = run-untranslated asked quiet asked-Disabled

-- Poison mode, with an error injected in the cycle of the report.
abbrev poisoned : Soc
poisoned = record reset {
  config = record Config.reset { dvsec_ctrl = 2 ^ 17 + 2 ^ 18 + 0xd * 2 ^ 20 };
}

poisoned-PoisonedRead : PoisonedRead poisoned (reads 0x48)
unfolding poison_mode Config.controls
poisoned-PoisonedRead = record { asked = refl; fresh = refl; reads = refl; mode = refl }

read-poisoned_example :
    ((step poisoned (reads 0x48)).regs.dat_r ≡ 0xffff_ffff)
    × (errors (step poisoned (reads 0x48)) quiet ≡ record no_errors { poisoned = true })
read-poisoned_example = read-poisoned poisoned (reads 0x48) quiet poisoned-PoisonedRead

-- A monitor that holds one capture, at its last word.
abbrev captured : Soc
captured = record reset { txn = record Monitor.reset { wr_ptr = 1; count = 1; word_idx = 4 } }

captured-Reads : Reads captured (reads 0x40) (reads 0x40)
unfolding Registers.reg_addr poison_mode Interface.txn_clear run step dma_inputs regs_inputs
    Dma.Engine.step Registers.step Ats.Engine.result_we Config.controls Ats.System.step ats_inputs
    Ats.Engine.step Interface.ats_interface Config.step config_inputs Ats.Engine.in_flight
    Ats.Atc.step Ats.Invalidation.atc_invalidate
captured-Reads = record {
  asked = refl;
  held = refl;
  at = refl;
  still = refl;
  fresh = refl;
  sound = refl;
  kept = refl;
  kept_next = refl;
}

captured-Inv : Inv txn_fifo_depth captured.txn
captured-Inv = ground arith

read-moves_example :
    let u = step captured (reads 0x40) in
    let waiting = left txn_fifo_depth captured.txn in
    let early = words (captures txn_fifo_depth captured.txn (txn_inputs captured (reads 0x40))) in
    let late = words (captures txn_fifo_depth u.txn (txn_inputs u (reads 0x40))) in
    (u.regs.dat_r ≡ first_or 0xffff_ffff waiting)
    × (left txn_fifo_depth (step u (reads 0x40)).txn ≡ drop 1 (waiting ++ early) ++ late)
read-moves_example = read-moves captured (reads 0x40) (reads 0x40) captured-Inv refl captured-Reads
