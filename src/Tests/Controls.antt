-- ===== src/Tests/Controls.antt =====
-- Writes to the registers of BAR 0.
use bsa_pcie_exerciser.Prelude.{ℕ, ◌≡◌, refl, Bool, true, false, List, [], ◌∷◌}
use bsa_pcie_exerciser.Registers.{Inputs, reset, step, reg_addr}
use bsa_pcie_exerciser.Registers.Edges.{dma, armed, busy, writes, trigger_bit}
use bsa_pcie_exerciser.Registers.Pulses.{pulses, starts, unstarted, pulses-once}

abbrev cycle : Bool → Bool → ℕ → ℕ → Bool → Inputs
cycle select write at word engaged = record {
  cyc = select;
  stb = select;
  we = write;
  adr = at;
  dat_w = word;
  msi_busy = false;
  dma_busy = engaged;
  dma_status = 0;
  dma_status_we = false;
  ats_clear_results = false;
  ats_in_flight = false;
  ats_success = false;
  ats_cacheable = false;
  ats_invalidated = false;
  ats_addr_lo_we = false;
  ats_addr_lo_in = 0;
  ats_addr_hi_in = 0;
  ats_range_size_in = 0;
  ats_perm_in = 0;
  txn_overflow = false;
  txn_count = 0;
  txn_fifo_data = 0;
  txn_fifo_valid = false;
  poison_mode = false;
  usb_mon_rx_captured = 0;
  usb_mon_rx_dropped = 0;
  usb_mon_tx_captured = 0;
  usb_mon_tx_dropped = 0;
  usb_mon_rx_truncated = 0;
  usb_mon_tx_truncated = 0;
}

abbrev length_written : List Inputs
length_written = cycle true true 0x18 64 false ∷ cycle true true 0x18 64 false ∷ []

unarmed : armed dma reset ≡ false
unfolding armed
unarmed = refl

begins : starts dma reset (cycle true true 8 1 false) ≡ true
unfolding starts writes reg_addr trigger_bit
begins = refl

pulses-once_example :
    pulses dma reset
      (cycle true true 8 1 false ∷ cycle true true 8 1 false ∷ cycle false false 0 0 true ∷ [])
    ≡ 1
pulses-once_example =
    pulses-once dma reset (cycle true true 8 1 false) (cycle true true 8 1 false)
      (cycle false false 0 0 true ∷ []) unarmed begins (unfold busy in refl)
      (unfold unstarted writes step in refl)
