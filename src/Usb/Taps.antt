-- ===== src/Usb/Taps.antt =====
-- The taps of the USB monitor, src/bsa_pcie_exerciser/gateware/usb/monitor/top.py: the streams that it
-- observes, and what a capture engine gets from the registers behind them.
use bsa_pcie_exerciser.Prelude.{ℕ, Bool, false}
use bsa_pcie_exerciser.Usb.Capture

-- A request stream at its tap, from the depacketizer.
pub record RxRequest : Type 0 where
  pub valid : Bool
  pub ready : Bool
  pub first : Bool
  pub last : Bool
  pub we : Bool
  pub adr : ℕ
  pub len : ℕ
  pub req_id : ℕ
  pub tag : ℕ
  pub dat : ℕ
  pub first_be : ℕ
  pub last_be : ℕ
  pub attr : ℕ
  pub at : ℕ
  pub bar_hit : ℕ

-- A request stream at its tap, to the packetizer; the fields from `pasid_valid` on are those that the
-- stream calls pasid_en, pasid_val, privileged and execute.
pub record TxRequest : Type 0 where
  pub valid : Bool
  pub ready : Bool
  pub first : Bool
  pub last : Bool
  pub we : Bool
  pub adr : ℕ
  pub len : ℕ
  pub req_id : ℕ
  pub tag : ℕ
  pub dat : ℕ
  pub first_be : ℕ
  pub last_be : ℕ
  pub attr : ℕ
  pub at : ℕ
  pub pasid_valid : Bool
  pub pasid : ℕ
  pub privileged : Bool
  pub execute : Bool

pub record Completion : Type 0 where
  pub valid : Bool
  pub ready : Bool
  pub first : Bool
  pub last : Bool
  pub adr : ℕ
  pub len : ℕ
  pub req_id : ℕ
  pub tag : ℕ
  pub dat : ℕ
  pub status : ℕ
  pub cmp_id : ℕ
  pub byte_count : ℕ

-- The taps, the controls and the readiness of the crossbar, in one cycle.
pub record Inputs : Type 0 where
  pub rx_enable : Bool
  pub tx_enable : Bool
  pub clear_stats : Bool
  pub timestamp : ℕ
  pub rx_req : RxRequest
  pub rx_cpl : Completion
  pub tx_req : TxRequest
  pub tx_cpl : Completion
  pub source_ready : Bool

-- A capture engine's inputs: the registers of its taps, and two FIFOs' readiness.
unfoldable pub rx_inputs : Inputs → RxRequest → Completion → Bool → Bool → Capture.Inputs
rx_inputs i q c header payload = record {
  enable = i.rx_enable;
  timestamp = i.timestamp;
  clear_stats = i.clear_stats;
  tap_req_valid = q.valid;
  tap_req_ready = q.ready;
  tap_req_first = q.first;
  tap_req_last = q.last;
  tap_req_we = q.we;
  tap_req_adr = q.adr;
  tap_req_len = q.len;
  tap_req_req_id = q.req_id;
  tap_req_tag = q.tag;
  tap_req_dat = q.dat;
  tap_req_first_be = q.first_be;
  tap_req_last_be = q.last_be;
  tap_req_attr = q.attr;
  tap_req_at = q.at;
  tap_req_bar_hit = q.bar_hit;
  tap_req_pasid_valid = false;
  tap_req_pasid = 0;
  tap_req_privileged = false;
  tap_req_execute = false;
  tap_cpl_valid = c.valid;
  tap_cpl_ready = c.ready;
  tap_cpl_first = c.first;
  tap_cpl_last = c.last;
  tap_cpl_adr = c.adr;
  tap_cpl_len = c.len;
  tap_cpl_req_id = c.req_id;
  tap_cpl_tag = c.tag;
  tap_cpl_dat = c.dat;
  tap_cpl_status = c.status;
  tap_cpl_cmp_id = c.cmp_id;
  tap_cpl_byte_count = c.byte_count;
  header_ready = header;
  payload_ready = payload;
}

unfoldable pub tx_inputs : Inputs → TxRequest → Completion → Bool → Bool → Capture.Inputs
tx_inputs i q c header payload = record {
  enable = i.tx_enable;
  timestamp = i.timestamp;
  clear_stats = i.clear_stats;
  tap_req_valid = q.valid;
  tap_req_ready = q.ready;
  tap_req_first = q.first;
  tap_req_last = q.last;
  tap_req_we = q.we;
  tap_req_adr = q.adr;
  tap_req_len = q.len;
  tap_req_req_id = q.req_id;
  tap_req_tag = q.tag;
  tap_req_dat = q.dat;
  tap_req_first_be = q.first_be;
  tap_req_last_be = q.last_be;
  tap_req_attr = q.attr;
  tap_req_at = q.at;
  tap_req_bar_hit = 0;
  tap_req_pasid_valid = q.pasid_valid;
  tap_req_pasid = q.pasid;
  tap_req_privileged = q.privileged;
  tap_req_execute = q.execute;
  tap_cpl_valid = c.valid;
  tap_cpl_ready = c.ready;
  tap_cpl_first = c.first;
  tap_cpl_last = c.last;
  tap_cpl_adr = c.adr;
  tap_cpl_len = c.len;
  tap_cpl_req_id = c.req_id;
  tap_cpl_tag = c.tag;
  tap_cpl_dat = c.dat;
  tap_cpl_status = c.status;
  tap_cpl_cmp_id = c.cmp_id;
  tap_cpl_byte_count = c.byte_count;
  header_ready = header;
  payload_ready = payload;
}
