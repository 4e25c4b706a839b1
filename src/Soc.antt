-- ===== src/Soc.antt =====
-- The SoC, src/bsa_pcie_exerciser/gateware/soc/base.py: the modules behind the registers, wired
-- together. The endpoint, the buffer with its BAR1 handler, and the crossbar are outside. The MSI-X table
-- and its pending bits have the classes' default of 2048 vectors here; base.py builds them with 16.
pub mod Signals
pub mod Runs
pub mod Faults
pub mod Transfers
pub mod Gate
pub mod Trace
use bsa_pcie_exerciser.Prelude.{ℕ, ◌/◌, ◌%◌, ◌^◌, Bool, true, false, ◌&&◌, ◌||◌, not, if◌then◌else◌}
use Signals.{Inputs}
use bsa_pcie_exerciser.Registers
use bsa_pcie_exerciser.Registers.{Registers}
use bsa_pcie_exerciser.Registers.Interface
use bsa_pcie_exerciser.Config
use bsa_pcie_exerciser.Config.{Config}
use bsa_pcie_exerciser.Dma
use bsa_pcie_exerciser.Ats
use bsa_pcie_exerciser.Msix
use bsa_pcie_exerciser.Monitor
use bsa_pcie_exerciser.Monitor.{Monitor}
use bsa_pcie_exerciser.Intx
use bsa_pcie_exerciser.Intx.{Intx}

pub record Soc : Type 0 where
  pub regs : Registers
  pub config : Config
  pub dma : Dma.Engine.Engine
  pub ats : Ats.System.System
  pub msix : Msix.Controller.Msix
  pub txn : Monitor
  pub intx : Intx

abbrev pub txn_fifo_depth : ℕ
txn_fifo_depth = 32

abbrev pub max_pasid_bits : ℕ
max_pasid_bits = 20

abbrev pub reset : Soc
reset = record {
  regs = Registers.reset;
  config = Config.reset;
  dma = Dma.Engine.reset;
  ats = record {
    atc = Ats.Atc.reset;
    engine = Ats.Engine.reset;
    handler = Ats.Invalidation.reset;
    ats_enable_prev = false;
  };
  msix = record {
    state = Msix.Controller.idle;
    current_vector = 0;
    table = Msix.Table.reset;
    pba = Msix.Pba.reset;
  };
  txn = Monitor.reset;
  intx = Intx.reset;
}

unfoldable pub ats_enable : Soc → Bool
ats_enable s = (Config.controls s.config).ats_enable

unfoldable pub poison_mode : Soc → Bool
poison_mode s = (Config.controls s.config).poison_mode

msi_busy : Msix.Controller.State → Bool
msi_busy Msix.Controller.idle = false
msi_busy Msix.Controller.read_table = true
msi_busy Msix.Controller.issue_write = true

-- What the registers get from the bus and the other modules.
unfoldable pub regs_inputs : Soc → Inputs → Registers.Inputs
unfolding msi_busy ats_enable poison_mode
regs_inputs s i = record {
  cyc = i.cyc;
  stb = i.stb;
  we = i.we;
  adr = i.adr;
  dat_w = i.dat_w;
  msi_busy = msi_busy s.msix.state;
  dma_busy = Dma.Engine.busy s.dma.state;
  dma_status = s.dma.status;
  dma_status_we = Dma.Engine.status_we s.dma.state;
  ats_clear_results = s.ats.ats_enable_prev && not (ats_enable s);
  ats_in_flight = Ats.Engine.in_flight s.ats.engine;
  ats_success = s.ats.engine.success;
  ats_cacheable = s.ats.engine.cacheable;
  ats_invalidated = s.ats.atc.invalidated;
  ats_addr_lo_we = Ats.Engine.result_we s.ats.engine;
  ats_addr_lo_in = s.ats.engine.translated_addr % 2 ^ 32;
  ats_addr_hi_in = s.ats.engine.translated_addr / 2 ^ 32;
  ats_range_size_in = s.ats.engine.range_size;
  ats_perm_in = s.ats.engine.permissions;
  txn_overflow = s.txn.overflow;
  txn_count = s.txn.count;
  txn_fifo_data = Monitor.fifo_data s.txn;
  txn_fifo_valid = not (Monitor.fifo_empty s.txn);
  poison_mode = poison_mode s;
  usb_mon_rx_captured = i.usb.rx_captured;
  usb_mon_rx_dropped = i.usb.rx_dropped;
  usb_mon_tx_captured = i.usb.tx_captured;
  usb_mon_tx_dropped = i.usb.tx_dropped;
  usb_mon_rx_truncated = i.usb.rx_truncated;
  usb_mon_tx_truncated = i.usb.tx_truncated;
}

unfoldable pub config_inputs : Inputs → Config.Inputs
config_inputs i = record {
  valid = i.conf.valid;
  we = i.conf.we;
  req_id = i.conf.req_id;
  tag = i.conf.tag;
  register_no = i.conf.register_no;
  ext_reg = i.conf.ext_reg;
  first_be = i.conf.first_be;
  dat = i.conf.dat;
  comp_ready = i.conf_comp_ready;
  phy_id = i.phy_id;
}

-- The control signals are those of the registers, the translation that of the cache.
unfoldable pub dma_inputs : Soc → Inputs → Dma.Engine.Inputs
dma_inputs s i =
    let c = Registers.Interface.dma_control s.regs in
    record {
      trigger = Registers.dma_trigger s.regs (regs_inputs s i);
      direction = c.direction;
      no_snoop = c.no_snoop;
      addr_type = c.addr_type;
      bus_addr = c.bus_addr;
      length = s.regs.dma_len;
      offset = s.regs.dma_offset;
      pasid_en = c.pasid_en;
      pasid_val = s.regs.pasid_val % 2 ^ 20;
      privileged = c.privileged;
      instruction = c.instruction;
      rid_override_valid = Registers.Interface.rid_override_valid s.regs;
      rid_override_value = Registers.Interface.rid_override_value s.regs;
      phy_id = i.phy_id;
      use_atc = c.use_atc && ats_enable s;
      atc_hit = s.ats.atc.lookup_hit;
      atc_output_addr = s.ats.atc.lookup_output;
      source_ready = i.dma_port.source_ready;
      sink_valid = i.dma_port.sink_valid;
      sink_err = i.dma_port.sink_err;
      sink_last = i.dma_port.sink_last;
      sink_end = i.dma_port.sink_end;
      sink_dat = i.dma_port.sink_dat;
    }

unfoldable pub ats_inputs : Soc → Inputs → Ats.System.Inputs
ats_inputs s i =
    let c = Registers.Interface.dma_control s.regs in
    let a = Registers.Interface.ats_interface s.regs in
    record {
      ats_trigger = Registers.ats_trigger s.regs (regs_inputs s i);
      ats_enable = ats_enable s;
      dma_bus_addr = c.bus_addr;
      ats_pasid_en = a.pasid_en;
      pasid_val = s.regs.pasid_val;
      ats_privileged = a.privileged;
      ats_no_write = a.no_write;
      ats_exec_req = a.exec_req;
      ats_clear_atc = a.clear_atc;
      dma_use_atc = c.use_atc;
      source_ready = i.ats_port.source_ready;
      sink_valid = i.ats_port.sink_valid;
      sink_err = i.ats_port.sink_err;
      sink_last = i.ats_port.sink_last;
      sink_end = i.ats_port.sink_end;
      sink_dat = i.ats_port.sink_dat;
      lookup_addr = s.dma.current_addr;
      pasid_out_en = s.dma.current_pasid_en;
      pasid_out_val = s.dma.current_pasid_val;
      dma_busy = Dma.Engine.busy s.dma.state;
      inv_valid = i.inv.valid;
      inv_first = i.inv.first;
      inv_last = i.inv.last;
      inv_address = i.inv.address;
      inv_s_bit = i.inv.s_bit;
      inv_g_bit = i.inv.g_bit;
      inv_requester_id = i.inv.requester_id;
      inv_tag = i.inv.tag;
      inv_itag = i.inv.itag;
      msg_ready = i.msg_ready;
    }

unfoldable pub msix_inputs : Soc → Inputs → Msix.Controller.Inputs
msix_inputs s i = record {
  sw_vector = Registers.Interface.msi_vector s.regs;
  sw_valid = Registers.msi_trigger s.regs (regs_inputs s i);
  port_ready = i.msix_port_ready;
  table_request = i.table_request;
  pba_request = i.pba_request;
}

conf_ready : Config.State → Bool
conf_ready Config.idle = true
conf_ready Config.respond = false

-- The monitor sees the beats that are taken, of both streams.
unfoldable pub txn_inputs : Soc → Inputs → Monitor.Inputs
unfolding conf_ready
txn_inputs s i = record {
  tap_valid = i.req.valid && i.req.ready;
  tap_first = i.req.first;
  tap_last = i.req.last;
  tap_we = i.req.we;
  tap_adr = i.req.adr;
  tap_len = i.req.len;
  tap_dat = i.req.dat;
  tap_first_be = i.req.first_be;
  tap_last_be = i.req.last_be;
  tap_bar_hit = i.req.bar_hit;
  tap_cfg_valid = i.conf.valid && conf_ready s.config.state;
  tap_cfg_we = i.conf.we;
  tap_cfg_type = i.conf.cfg_type;
  tap_cfg_bus_number = i.conf.bus_number;
  tap_cfg_device_no = i.conf.device_no;
  tap_cfg_func = i.conf.func;
  tap_cfg_ext_reg = i.conf.ext_reg;
  tap_cfg_register_no = i.conf.register_no;
  tap_cfg_first_be = i.conf.first_be;
  tap_cfg_dat = i.conf.dat;
  enable = Registers.Interface.txn_enable s.regs;
  clear = Registers.Interface.txn_clear s.regs;
  fifo_read = Registers.Interface.txn_fifo_read s.regs (regs_inputs s i);
}

unfoldable pub intx_inputs : Soc → Inputs → Intx.Inputs
intx_inputs s i = record {
  intx_assert = Registers.Interface.intx_assert s.regs;
  source_ready = i.intx_ready;
}

-- One clock cycle.
unfoldable pub step : Soc → Inputs → Soc
step s i = record {
  regs = Registers.step s.regs (regs_inputs s i);
  config = Config.step Config.user_ext_cfg_dword_base max_pasid_bits s.config (config_inputs i);
  dma = Dma.Engine.step s.dma (dma_inputs s i);
  ats = Ats.System.step s.ats (ats_inputs s i);
  msix = Msix.Controller.step s.msix (msix_inputs s i);
  txn = Monitor.step txn_fifo_depth s.txn (txn_inputs s i);
  intx = Intx.step s.intx (intx_inputs s i);
}
