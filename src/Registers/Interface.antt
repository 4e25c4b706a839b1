-- ===== src/Registers/Interface.antt =====
-- The signals that the registers drive, src/bsa_pcie_exerciser/gateware/core/bsa_registers.py.
use bsa_pcie_exerciser.Prelude.{ℕ, ◌+◌, ◌*◌, ◌%◌, ◌^◌, Bool, ◌&&◌, not, ◌==◌, bit, slice}
use bsa_pcie_exerciser.Registers.{Registers, Inputs, reg_addr}
use bsa_pcie_exerciser.Registers.Offsets.{reg_txn_trace}

-- The fields of DMACTL and the bus address.
pub record DmaControl : Type 0 where
  pub direction : Bool
  pub no_snoop : Bool
  pub pasid_en : Bool
  pub privileged : Bool
  pub instruction : Bool
  pub use_atc : Bool
  pub addr_type : ℕ
  pub bus_addr : ℕ

unfoldable pub dma_control : Registers → DmaControl
dma_control s = record {
  direction = bit s.dmactl 4;
  no_snoop = bit s.dmactl 5;
  pasid_en = bit s.dmactl 6;
  privileged = bit s.dmactl 7;
  instruction = bit s.dmactl 8;
  use_atc = bit s.dmactl 9;
  addr_type = slice s.dmactl 10 2;
  bus_addr = s.dma_bus_addr_lo % 2 ^ 32 + s.dma_bus_addr_hi * 2 ^ 32;
}

pub record AtsControl : Type 0 where
  pub privileged : Bool
  pub no_write : Bool
  pub pasid_en : Bool
  pub exec_req : Bool
  pub clear_atc : Bool

unfoldable pub ats_interface : Registers → AtsControl
ats_interface s = record {
  privileged = bit s.atsctl 1;
  no_write = bit s.atsctl 2;
  pasid_en = bit s.atsctl 3;
  exec_req = bit s.atsctl 4;
  clear_atc = bit s.atsctl 5;
}

unfoldable pub msi_vector : Registers → ℕ
msi_vector s = slice s.msictl 0 11

unfoldable pub intx_assert : Registers → Bool
intx_assert s = bit s.intxctl 0

unfoldable pub rid_override_value : Registers → ℕ
rid_override_value s = slice s.rid_ctl 0 16

unfoldable pub rid_override_valid : Registers → Bool
rid_override_valid s = bit s.rid_ctl 31

unfoldable pub txn_enable : Registers → Bool
txn_enable s = bit s.txn_ctrl 0

unfoldable pub txn_clear : Registers → Bool
txn_clear s = bit s.txn_ctrl 1

unfoldable pub txn_fifo_read : Registers → Inputs → Bool
unfolding reg_addr
txn_fifo_read s i = i.cyc && i.stb && not i.we && reg_addr i == reg_txn_trace && s.ack

unfoldable pub usb_mon_rx_enable : Registers → Bool
usb_mon_rx_enable s = bit s.usb_mon_ctrl 0

unfoldable pub usb_mon_tx_enable : Registers → Bool
usb_mon_tx_enable s = bit s.usb_mon_ctrl 1

unfoldable pub usb_mon_clear_stats : Registers → Bool
usb_mon_clear_stats s = bit s.usb_mon_ctrl 2
