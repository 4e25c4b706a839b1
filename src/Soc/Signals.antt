-- ===== src/Soc/Signals.antt =====
-- The signals that reach the modules of the SoC from outside,
-- src/bsa_pcie_exerciser/gateware/soc/base.py.
use bsa_pcie_exerciser.Prelude.{ℕ, Bool}
use bsa_pcie_exerciser.Msix.Table

-- The memory requests of the depacketizer, as the transaction monitor taps them.
pub record Request : Type 0 where
  pub valid : Bool
  pub ready : Bool
  pub first : Bool
  pub last : Bool
  pub we : Bool
  pub adr : ℕ
  pub len : ℕ
  pub dat : ℕ
  pub first_be : ℕ
  pub last_be : ℕ
  pub bar_hit : ℕ

-- Its configuration requests, which the configuration space answers and the monitor taps.
pub record ConfRequest : Type 0 where
  pub valid : Bool
  pub we : Bool
  pub req_id : ℕ
  pub tag : ℕ
  pub cfg_type : Bool
  pub bus_number : ℕ
  pub device_no : ℕ
  pub func : ℕ
  pub ext_reg : ℕ
  pub register_no : ℕ
  pub first_be : ℕ
  pub dat : ℕ

-- The other side of a master port: readiness for requests, and the completions.
pub record Port : Type 0 where
  pub source_ready : Bool
  pub sink_valid : Bool
  pub sink_err : Bool
  pub sink_last : Bool
  pub sink_end : Bool
  pub sink_dat : ℕ

pub record Invalidate : Type 0 where
  pub valid : Bool
  pub first : Bool
  pub last : Bool
  pub address : ℕ
  pub s_bit : Bool
  pub g_bit : Bool
  pub requester_id : ℕ
  pub tag : ℕ
  pub itag : ℕ

-- The counters of the USB monitor, 0 on a board without one.
pub record UsbStats : Type 0 where
  pub rx_captured : ℕ
  pub rx_dropped : ℕ
  pub tx_captured : ℕ
  pub tx_dropped : ℕ
  pub rx_truncated : ℕ
  pub tx_truncated : ℕ

-- One cycle: the Wishbone bus of the registers, the streams, the ports, the PHY, and the event of the
-- BAR1 handler.
pub record Inputs : Type 0 where
  pub cyc : Bool
  pub stb : Bool
  pub we : Bool
  pub adr : ℕ
  pub dat_w : ℕ
  pub req : Request
  pub conf : ConfRequest
  pub conf_comp_ready : Bool
  pub phy_id : ℕ
  pub dma_port : Port
  pub ats_port : Port
  pub inv : Invalidate
  pub msg_ready : Bool
  pub msix_port_ready : Bool
  pub table_request : Table.Inputs
  pub pba_request : Table.Inputs
  pub intx_ready : Bool
  pub dma_handler_poison_event : Bool
  pub usb : UsbStats
