-- ===== src/Ats/System.antt =====
-- The wiring of cache, engine and handler in src/bsa_pcie_exerciser/gateware/soc/base.py.
pub mod Translate
use bsa_pcie_exerciser.Prelude.{ℕ, ◌%◌, ◌^◌, Bool, true, false, ◌&&◌, ◌||◌, not}
use bsa_pcie_exerciser.Ats.Atc
use bsa_pcie_exerciser.Ats.Atc.{Atc}
use bsa_pcie_exerciser.Ats.Engine
use bsa_pcie_exerciser.Ats.Engine.{Engine}
use bsa_pcie_exerciser.Ats.Invalidation
use bsa_pcie_exerciser.Ats.Invalidation.{Handler}

pub record System : Type 0 where
  pub atc : Atc
  pub engine : Engine
  pub handler : Handler
  pub ats_enable_prev : Bool

-- The signals of one cycle that come from outside the three modules: the register file, the
-- configuration space, the DMA engine, the master port and the message streams.
pub record Inputs : Type 0 where
  pub ats_trigger : Bool
  pub ats_enable : Bool
  pub dma_bus_addr : ℕ
  pub ats_pasid_en : Bool
  pub pasid_val : ℕ
  pub ats_privileged : Bool
  pub ats_no_write : Bool
  pub ats_exec_req : Bool
  pub ats_clear_atc : Bool
  pub dma_use_atc : Bool
  pub source_ready : Bool
  pub sink_valid : Bool
  pub sink_err : Bool
  pub sink_last : Bool
  pub sink_end : Bool
  pub sink_dat : ℕ
  pub lookup_addr : ℕ
  pub pasid_out_en : Bool
  pub pasid_out_val : ℕ
  pub dma_busy : Bool
  pub inv_valid : Bool
  pub inv_first : Bool
  pub inv_last : Bool
  pub inv_address : ℕ
  pub inv_s_bit : Bool
  pub inv_g_bit : Bool
  pub inv_requester_id : ℕ
  pub inv_tag : ℕ
  pub inv_itag : ℕ
  pub msg_ready : Bool

unfoldable pub handler_inputs : System → Inputs → Invalidation.Inputs
handler_inputs s i = record {
  inv_valid = i.inv_valid;
  inv_first = i.inv_first;
  inv_last = i.inv_last;
  address = i.inv_address;
  s_bit = i.inv_s_bit;
  g_bit = i.inv_g_bit;
  requester_id = i.inv_requester_id;
  tag = i.inv_tag;
  itag = i.inv_itag;
  atc_valid = s.atc.valid;
  atc_input_addr = s.atc.input_addr;
  atc_input_addr_end = s.atc.input_addr_end;
  atc_pasid_valid = s.atc.pasid_valid;
  atc_pasid_val = s.atc.pasid_val;
  ats_in_flight = Engine.in_flight s.engine;
  dma_busy = i.dma_busy;
  dma_using_atc = i.dma_use_atc;
  msg_ready = i.msg_ready;
}

unfoldable pub engine_inputs : Bool → Inputs → Engine.Inputs
engine_inputs retrying i = record {
  trigger = i.ats_trigger && i.ats_enable;
  address = i.dma_bus_addr;
  pasid_en = i.ats_pasid_en;
  pasid_val = i.pasid_val % 2 ^ 20;
  privileged = i.ats_privileged;
  no_write = i.ats_no_write;
  exec_req = i.ats_exec_req;
  clear_atc = i.ats_clear_atc;
  retry = retrying;
  source_ready = i.source_ready;
  sink_valid = i.sink_valid;
  sink_err = i.sink_err;
  sink_last = i.sink_last;
  sink_end = i.sink_end;
  sink_dat = i.sink_dat;
}

unfoldable pub ats_disable_pulse : System → Inputs → Bool
ats_disable_pulse s i = s.ats_enable_prev && not i.ats_enable

-- The entry stored takes its address and PASID from the registers, not from the engine's latches.
unfoldable pub atc_inputs : System → Inputs → Atc.Inputs
unfolding ats_disable_pulse
atc_inputs s i = record {
  store = Engine.result_we s.engine && s.engine.success;
  store_input_addr = i.dma_bus_addr;
  store_output_addr = s.engine.translated_addr;
  store_range_size = s.engine.range_size;
  store_permissions = s.engine.permissions;
  store_pasid_valid = i.ats_pasid_en;
  store_pasid_val = i.pasid_val % 2 ^ 20;
  lookup_addr = i.lookup_addr;
  lookup_pasid_valid = i.pasid_out_en;
  lookup_pasid_val = i.pasid_out_val;
  invalidate = i.ats_clear_atc || ats_disable_pulse s i || Invalidation.atc_invalidate s.handler;
}

-- One clock cycle of the three modules.
unfoldable pub step : System → Inputs → System
unfolding handler_inputs engine_inputs atc_inputs
step s i = record {
  atc = Atc.step s.atc (atc_inputs s i);
  engine =
      Engine.step s.engine
        (engine_inputs (Invalidation.ats_retry s.handler (handler_inputs s i)) i);
  handler = Invalidation.step s.handler (handler_inputs s i);
  ats_enable_prev = i.ats_enable;
}
