-- ===== src/Registers/Offsets.antt =====
-- The offsets of the registers of BAR 0, from
-- src/bsa_pcie_exerciser/gateware/core/bsa_registers.py.
use bsa_pcie_exerciser.Prelude.{ℕ}

abbrev pub exerciser_combined_id : ℕ
exerciser_combined_id = 0xed01_13b5

abbrev pub reg_msictl : ℕ
reg_msictl = 0x000

abbrev pub reg_intxctl : ℕ
reg_intxctl = 0x004

abbrev pub reg_dmactl : ℕ
reg_dmactl = 0x008

abbrev pub reg_dma_offset : ℕ
reg_dma_offset = 0x00c

abbrev pub reg_dma_bus_addr_lo : ℕ
reg_dma_bus_addr_lo = 0x010

abbrev pub reg_dma_bus_addr_hi : ℕ
reg_dma_bus_addr_hi = 0x014

abbrev pub reg_dma_len : ℕ
reg_dma_len = 0x018

abbrev pub reg_dmastatus : ℕ
reg_dmastatus = 0x01c

abbrev pub reg_pasid_val : ℕ
reg_pasid_val = 0x020

abbrev pub reg_atsctl : ℕ
reg_atsctl = 0x024

abbrev pub reg_ats_addr_lo : ℕ
reg_ats_addr_lo = 0x028

abbrev pub reg_ats_addr_hi : ℕ
reg_ats_addr_hi = 0x02c

abbrev pub reg_ats_range_size : ℕ
reg_ats_range_size = 0x030

abbrev pub reg_ats_perm : ℕ
reg_ats_perm = 0x038

abbrev pub reg_rid_ctl : ℕ
reg_rid_ctl = 0x03c

abbrev pub reg_txn_trace : ℕ
reg_txn_trace = 0x040

abbrev pub reg_txn_ctrl : ℕ
reg_txn_ctrl = 0x044

abbrev pub reg_id : ℕ
reg_id = 0x048

abbrev pub reg_usb_mon_ctrl : ℕ
reg_usb_mon_ctrl = 0x080

abbrev pub reg_usb_mon_status : ℕ
reg_usb_mon_status = 0x084

abbrev pub reg_usb_mon_rx_captured : ℕ
reg_usb_mon_rx_captured = 0x088

abbrev pub reg_usb_mon_rx_dropped : ℕ
reg_usb_mon_rx_dropped = 0x08c

abbrev pub reg_usb_mon_tx_captured : ℕ
reg_usb_mon_tx_captured = 0x090

abbrev pub reg_usb_mon_tx_dropped : ℕ
reg_usb_mon_tx_dropped = 0x094

abbrev pub reg_usb_mon_rx_truncated : ℕ
reg_usb_mon_rx_truncated = 0x098

abbrev pub reg_usb_mon_tx_truncated : ℕ
reg_usb_mon_tx_truncated = 0x09c
