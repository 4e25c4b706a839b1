-- ===== src/Registers.antt =====
-- The registers of BAR 0, src/bsa_pcie_exerciser/gateware/core/bsa_registers.py, the class
-- BSARegisters.
pub mod Offsets
pub mod Interface
pub mod Plain
pub mod Edges
pub mod Pulses
use bsa_pcie_exerciser.Prelude.{
  ℕ, ◌+◌, ◌*◌, ◌/◌, ◌%◌, ◌^◌, Bool, true, false, ◌&&◌, ◌||◌, not, ◌==◌, if◌then◌else◌, bit, slice,
  put, b2n,
}
use Offsets.*

pub record Registers : Type 0 where
  pub msictl : ℕ
  pub intxctl : ℕ
  pub dmactl : ℕ
  pub dma_offset : ℕ
  pub dma_bus_addr_lo : ℕ
  pub dma_bus_addr_hi : ℕ
  pub dma_len : ℕ
  pub dmastatus : ℕ
  pub pasid_val : ℕ
  pub atsctl : ℕ
  pub rid_ctl : ℕ
  pub txn_ctrl : ℕ
  pub ats_addr_lo : ℕ
  pub ats_addr_hi : ℕ
  pub ats_range_size : ℕ
  pub ats_perm : ℕ
  pub usb_mon_ctrl : ℕ
  pub ack : Bool
  pub dat_r : ℕ
  pub poison_event : Bool
  pub msi_trigger_prev : Bool
  pub dma_trigger_prev : Bool
  pub ats_trigger_prev : Bool

-- The bus, and what the other modules drive.
pub record Inputs : Type 0 where
  pub cyc : Bool
  pub stb : Bool
  pub we : Bool
  pub adr : ℕ
  pub dat_w : ℕ
  pub msi_busy : Bool
  pub dma_busy : Bool
  pub dma_status : ℕ
  pub dma_status_we : Bool
  pub ats_clear_results : Bool
  pub ats_in_flight : Bool
  pub ats_success : Bool
  pub ats_cacheable : Bool
  pub ats_invalidated : Bool
  pub ats_addr_lo_we : Bool
  pub ats_addr_lo_in : ℕ
  pub ats_addr_hi_in : ℕ
  pub ats_range_size_in : ℕ
  pub ats_perm_in : ℕ
  pub txn_overflow : Bool
  pub txn_count : ℕ
  pub txn_fifo_data : ℕ
  pub txn_fifo_valid : Bool
  pub poison_mode : Bool
  pub usb_mon_rx_captured : ℕ
  pub usb_mon_rx_dropped : ℕ
  pub usb_mon_tx_captured : ℕ
  pub usb_mon_tx_dropped : ℕ
  pub usb_mon_rx_truncated : ℕ
  pub usb_mon_tx_truncated : ℕ

abbrev pub reset : Registers
reset = record {
  msictl = 0;
  intxctl = 0;
  dmactl = 0;
  dma_offset = 0;
  dma_bus_addr_lo = 0;
  dma_bus_addr_hi = 0;
  dma_len = 0;
  dmastatus = 0;
  pasid_val = 0;
  atsctl = 0;
  rid_ctl = 0;
  txn_ctrl = 0;
  ats_addr_lo = 0;
  ats_addr_hi = 0;
  ats_range_size = 0;
  ats_perm = 0;
  usb_mon_ctrl = 3;
  ack = false;
  dat_r = 0;
  poison_event = false;
  msi_trigger_prev = false;
  dma_trigger_prev = false;
  ats_trigger_prev = false;
}

-- The low ten bits of the address without the lowest two.
unfoldable pub reg_addr : Inputs → ℕ
reg_addr i = slice i.adr 2 8 * 4

unfoldable pub txn_ctrl_read : Registers → Inputs → ℕ
txn_ctrl_read s i = s.txn_ctrl % 2 + b2n i.txn_overflow * 2 ^ 2 + i.txn_count % 2 ^ 8 * 2 ^ 8

unfoldable pub txn_trace : Inputs → ℕ
txn_trace i = if i.txn_fifo_valid then i.txn_fifo_data else 0xffff_ffff

-- The read mux.
unfoldable pub mux : ℕ → Registers → Inputs → ℕ
unfolding txn_ctrl_read txn_trace
mux a s i =
    if a == reg_msictl
    then s.msictl
    else if a == reg_intxctl
    then s.intxctl
    else if a == reg_dmactl
    then s.dmactl
    else if a == reg_dma_offset
    then s.dma_offset
    else if a == reg_dma_bus_addr_lo
    then s.dma_bus_addr_lo
    else if a == reg_dma_bus_addr_hi
    then s.dma_bus_addr_hi
    else if a == reg_dma_len
    then s.dma_len
    else if a == reg_dmastatus
    then s.dmastatus
    else if a == reg_pasid_val
    then s.pasid_val
    else if a == reg_atsctl
    then s.atsctl
    else if a == reg_ats_addr_lo
    then s.ats_addr_lo
    else if a == reg_ats_addr_hi
    then s.ats_addr_hi
    else if a == reg_ats_range_size
    then s.ats_range_size
    else if a == reg_ats_perm
    then s.ats_perm
    else if a == reg_rid_ctl
    then s.rid_ctl
    else if a == reg_txn_trace
    then txn_trace i
    else if a == reg_txn_ctrl
    then txn_ctrl_read s i
    else if a == reg_id
    then exerciser_combined_id
    else if a == reg_usb_mon_ctrl
    then s.usb_mon_ctrl
    else if a == reg_usb_mon_status
    then 0
    else if a == reg_usb_mon_rx_captured
    then i.usb_mon_rx_captured
    else if a == reg_usb_mon_rx_dropped
    then i.usb_mon_rx_dropped
    else if a == reg_usb_mon_tx_captured
    then i.usb_mon_tx_captured
    else if a == reg_usb_mon_tx_dropped
    then i.usb_mon_tx_dropped
    else if a == reg_usb_mon_rx_truncated
    then i.usb_mon_rx_truncated
    else if a == reg_usb_mon_tx_truncated
    then i.usb_mon_tx_truncated
    else 0

unfoldable pub read_data : Registers → Inputs → ℕ
unfolding mux reg_addr
read_data s i = if i.poison_mode then 0xffff_ffff else mux (reg_addr i) s i

-- A write to the register at an offset; the others ignore it.
unfoldable pub write : ℕ → ℕ → Registers → Registers
write a v s =
    if a == reg_msictl
    then record s { msictl = v }
    else if a == reg_intxctl
    then record s { intxctl = v }
    else if a == reg_dmactl
    then record s { dmactl = v }
    else if a == reg_dma_offset
    then record s { dma_offset = v }
    else if a == reg_dma_bus_addr_lo
    then record s { dma_bus_addr_lo = v }
    else if a == reg_dma_bus_addr_hi
    then record s { dma_bus_addr_hi = v }
    else if a == reg_dma_len
    then record s { dma_len = v }
    else if a == reg_dmastatus
    then record s { dmastatus = v }
    else if a == reg_pasid_val
    then record s { pasid_val = v }
    else if a == reg_atsctl
    then record s { atsctl = v }
    else if a == reg_rid_ctl
    then record s { rid_ctl = v }
    else if a == reg_txn_ctrl
    then record s { txn_ctrl = v }
    else if a == reg_usb_mon_ctrl
    then record s { usb_mon_ctrl = v }
    else s

-- The bus is asked, and has not answered yet.
unfoldable pub strobe : Registers → Inputs → Bool
strobe s i = i.cyc && i.stb && not s.ack

-- The answer, and the pulse of a poisoned read.
unfoldable pub answer : Registers → Inputs → Registers
unfolding read_data strobe
answer s i = record s {
  ack = strobe s i;
  dat_r = if strobe s i then read_data s i else s.dat_r;
  poison_event = i.poison_mode && strobe s i && not i.we;
}

-- The bus logic.
unfoldable pub bus : Registers → Inputs → Registers
unfolding answer write reg_addr
bus s i =
    if strobe s i && i.we && not i.poison_mode
    then write (reg_addr i) i.dat_w (answer s i)
    else answer s i

-- A write strobe to an offset, acknowledged or not.
unfoldable pub strobes : Inputs → ℕ → Bool
unfolding reg_addr
strobes i a = i.cyc && i.stb && i.we && reg_addr i == a

unfoldable pub msi_trigger : Registers → Inputs → Bool
msi_trigger s i = bit s.msictl 31 && not s.msi_trigger_prev && not i.msi_busy

unfoldable pub dma_trigger : Registers → Inputs → Bool
dma_trigger s i = bit s.dmactl 0 && not s.dma_trigger_prev && not i.dma_busy

unfoldable pub ats_trigger : Registers → Inputs → Bool
ats_trigger s i = bit s.atsctl 0 && not s.ats_trigger_prev && not i.ats_in_flight

-- The later assignments of the cycle, from what the bus has written.
unfoldable pub triggers : Registers → Inputs → Registers → Registers
unfolding msi_trigger dma_trigger
triggers s i t = record t {
  msi_trigger_prev = bit s.msictl 31;
  dma_trigger_prev = bit s.dmactl 0;
  msictl = if msi_trigger s i then put t.msictl 31 1 0 else t.msictl;
  dmactl = if dma_trigger s i then put t.dmactl 0 1 0 else t.dmactl;
}

unfoldable pub dma_status : Inputs → Registers → Registers
unfolding strobes
dma_status i t =
    let u = if i.dma_status_we then put t.dmastatus 0 2 i.dma_status else t.dmastatus in
    record t { dmastatus = if strobes i reg_dmastatus && bit i.dat_w 2 then put u 0 2 0 else u }

unfoldable pub ats_control : Registers → Inputs → Registers → Registers
unfolding ats_trigger strobes
ats_control s i t =
    let a = if ats_trigger s i then put t.atsctl 0 1 0 else t.atsctl in
    let b = if bit s.atsctl 5 then put a 5 1 0 else a in
    let c = put b 6 1 (b2n i.ats_in_flight) in
    let d = put c 7 1 (if i.ats_clear_results then 0 else b2n i.ats_success) in
    let e = put d 8 1 (if i.ats_clear_results then 0 else b2n i.ats_cacheable) in
    let f =
      if i.ats_invalidated
      then put e 9 1 1
      else if strobes i reg_atsctl && bit i.dat_w 9
      then put e 9 1 0
      else e in
    record t { ats_trigger_prev = bit s.atsctl 0; atsctl = f }

unfoldable pub ats_results : Inputs → Registers → Registers
ats_results i t =
    if i.ats_clear_results
    then record t { ats_addr_lo = 0; ats_addr_hi = 0; ats_range_size = 0; ats_perm = 0 }
    else if i.ats_addr_lo_we
    then record t {
      ats_addr_lo = i.ats_addr_lo_in;
      ats_addr_hi = i.ats_addr_hi_in;
      ats_range_size = i.ats_range_size_in;
      ats_perm = i.ats_perm_in;
    }
    else t

unfoldable pub auto_clears : Registers → Registers → Registers
auto_clears s t = record t {
  txn_ctrl = if bit s.txn_ctrl 1 then put t.txn_ctrl 1 1 0 else t.txn_ctrl;
  usb_mon_ctrl = if bit s.usb_mon_ctrl 2 then put t.usb_mon_ctrl 2 1 0 else t.usb_mon_ctrl;
}

-- One clock cycle.
unfoldable pub step : Registers → Inputs → Registers
unfolding bus triggers dma_status ats_control ats_results auto_clears
step s i = auto_clears s (ats_results i (ats_control s i (dma_status i (triggers s i (bus s i)))))
