-- ===== src/Usb/Top.antt =====
-- The USB monitor, src/bsa_pcie_exerciser/gateware/usb/monitor/top.py, the class USBMonitorSubsystem:
-- the registers behind the taps, a capture engine and two FIFOs for each direction, and the arbiter.
pub mod Halves
pub mod Passing
use bsa_pcie_exerciser.Prelude.{ℕ, ◌+◌, ◌*◌, ◌^◌, Bool, true, false, ◌&&◌}
use bsa_pcie_exerciser.Usb.Taps.{RxRequest, TxRequest, Completion, Inputs, rx_inputs, tx_inputs}
use bsa_pcie_exerciser.Usb.Capture
use bsa_pcie_exerciser.Usb.Capture.{Capture, tap_of, full_header}
use bsa_pcie_exerciser.Usb.Fifo
use bsa_pcie_exerciser.Usb.Fifo.{SyncFifo, Converter, MonitorFifo}
use bsa_pcie_exerciser.Usb.Arbiter
use bsa_pcie_exerciser.Usb.Arbiter.{Arbiter, Output}

-- The registers behind the taps, and the submodules.
pub record Monitor (H C P D : Type 0) : Type 0 where
  pub rx_req_r : RxRequest
  pub rx_cpl_r : Completion
  pub tx_req_r : TxRequest
  pub tx_cpl_r : Completion
  pub rx_capture : Capture
  pub tx_capture : Capture
  pub rx_header_fifo : MonitorFifo H C
  pub rx_payload_fifo : MonitorFifo P D
  pub tx_header_fifo : MonitorFifo H C
  pub tx_payload_fifo : MonitorFifo P D
  pub arbiter : Arbiter

-- Cat of the four 64-bit words of a header.
unfoldable pub header_entry : ℕ × ℕ × ℕ × ℕ → ℕ
header_entry (h0, h1, h2, h3) = h0 + h1 * 2 ^ 64 + h2 * 2 ^ 128 + h3 * 2 ^ 192

abbrev pub blank_rx : RxRequest
blank_rx = record {
  valid = false;
  ready = false;
  first = false;
  last = false;
  we = false;
  adr = 0;
  len = 0;
  req_id = 0;
  tag = 0;
  dat = 0;
  first_be = 0;
  last_be = 0;
  attr = 0;
  at = 0;
  bar_hit = 0;
}

abbrev pub blank_tx : TxRequest
blank_tx = record {
  valid = false;
  ready = false;
  first = false;
  last = false;
  we = false;
  adr = 0;
  len = 0;
  req_id = 0;
  tag = 0;
  dat = 0;
  first_be = 0;
  last_be = 0;
  attr = 0;
  at = 0;
  pasid_valid = false;
  pasid = 0;
  privileged = false;
  execute = false;
}

abbrev pub blank_cpl : Completion
blank_cpl = record {
  valid = false;
  ready = false;
  first = false;
  last = false;
  adr = 0;
  len = 0;
  req_id = 0;
  tag = 0;
  dat = 0;
  status = 0;
  cmp_id = 0;
  byte_count = 0;
}

-- Header FIFOs of 4 entries of 256 bits, payload FIFOs of `depth` entries of 64 bits.
module _ {depth : ℕ} (hs : SyncFifo 4) (hc : Converter 8) (ps : SyncFifo depth)
    (pc : Converter 2) where
  abbrev pub System : Type 0
  System = Monitor hs.Storing hc.Converting ps.Storing pc.Converting

  abbrev pub reset : System
  reset = record {
    rx_req_r = blank_rx;
    rx_cpl_r = blank_cpl;
    tx_req_r = blank_tx;
    tx_cpl_r = blank_cpl;
    rx_capture = Capture.reset;
    tx_capture = Capture.reset;
    rx_header_fifo = Fifo.reset hs hc;
    rx_payload_fifo = Fifo.reset ps pc;
    tx_header_fifo = Fifo.reset hs hc;
    tx_payload_fifo = Fifo.reset ps pc;
    arbiter = Arbiter.reset;
  }

  unfoldable pub rx_tapped : System → Inputs → Capture.Inputs
  rx_tapped s i =
      rx_inputs i s.rx_req_r s.rx_cpl_r (Fifo.sink_ready hs hc s.rx_header_fifo)
        (Fifo.sink_ready ps pc s.rx_payload_fifo)

  unfoldable pub tx_tapped : System → Inputs → Capture.Inputs
  tx_tapped s i =
      tx_inputs i s.tx_req_r s.tx_cpl_r (Fifo.sink_ready hs hc s.tx_header_fifo)
        (Fifo.sink_ready ps pc s.tx_payload_fifo)

  unfoldable pub arbiter_inputs : System → Inputs → Arbiter.Inputs
  arbiter_inputs s i = record {
    rx_header_valid = Fifo.source_valid hs hc s.rx_header_fifo;
    rx_header_data = Fifo.source_data hs hc s.rx_header_fifo;
    tx_header_valid = Fifo.source_valid hs hc s.tx_header_fifo;
    tx_header_data = Fifo.source_data hs hc s.tx_header_fifo;
    rx_payload_valid = Fifo.source_valid ps pc s.rx_payload_fifo;
    rx_payload_data = Fifo.source_data ps pc s.rx_payload_fifo;
    tx_payload_valid = Fifo.source_valid ps pc s.tx_payload_fifo;
    tx_payload_data = Fifo.source_data ps pc s.tx_payload_fifo;
    source_ready = i.source_ready;
  }

  -- What a capture engine writes to its header FIFO, and to its payload FIFO.
  unfoldable pub header_write : Bool → Capture → Capture.Inputs → Bool → Fifo.Inputs
  header_write tx c i ready = record {
    sink_valid = Capture.header_valid i (tap_of i) c;
    sink_data = header_entry (full_header tx c i);
    source_ready = ready;
  }

  unfoldable pub payload_write : Capture → Capture.Inputs → Bool → Fifo.Inputs
  payload_write c i ready = record {
    sink_valid = Capture.payload_valid i (tap_of i) c;
    sink_data = (tap_of i).dat;
    source_ready = ready;
  }

  unfoldable pub rx_header_drive : System → Inputs → Fifo.Inputs
  rx_header_drive s i =
      header_write false s.rx_capture (rx_tapped s i)
        (Arbiter.rx_header_ready s.arbiter (arbiter_inputs s i))

  unfoldable pub rx_payload_drive : System → Inputs → Fifo.Inputs
  rx_payload_drive s i =
      payload_write s.rx_capture (rx_tapped s i)
        (Arbiter.rx_payload_ready s.arbiter (arbiter_inputs s i))

  unfoldable pub tx_header_drive : System → Inputs → Fifo.Inputs
  tx_header_drive s i =
      header_write true s.tx_capture (tx_tapped s i)
        (Arbiter.tx_header_ready s.arbiter (arbiter_inputs s i))

  unfoldable pub tx_payload_drive : System → Inputs → Fifo.Inputs
  tx_payload_drive s i =
      payload_write s.tx_capture (tx_tapped s i)
        (Arbiter.tx_payload_ready s.arbiter (arbiter_inputs s i))

  -- One clock cycle.
  unfoldable pub step : System → Inputs → System
  step s i = record {
    rx_req_r = i.rx_req;
    rx_cpl_r = i.rx_cpl;
    tx_req_r = i.tx_req;
    tx_cpl_r = i.tx_cpl;
    rx_capture = Capture.step s.rx_capture (rx_tapped s i);
    tx_capture = Capture.step s.tx_capture (tx_tapped s i);
    rx_header_fifo = Fifo.step hs hc s.rx_header_fifo (rx_header_drive s i);
    rx_payload_fifo = Fifo.step ps pc s.rx_payload_fifo (rx_payload_drive s i);
    tx_header_fifo = Fifo.step hs hc s.tx_header_fifo (tx_header_drive s i);
    tx_payload_fifo = Fifo.step ps pc s.tx_payload_fifo (tx_payload_drive s i);
    arbiter = Arbiter.step s.arbiter (arbiter_inputs s i);
  }

  -- The stream to the crossbar.
  unfoldable pub source : System → Inputs → Output
  source s i = Arbiter.output s.arbiter (arbiter_inputs s i)
