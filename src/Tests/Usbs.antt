-- ===== src/Tests/Usbs.antt =====
-- The capture engine and the arbiter of the USB monitor.
use bsa_pcie_exerciser.Prelude.{◌≡◌, refl, true, false, ◌||◌, some, [], ◌∷◌, run}
use bsa_pcie_exerciser.Usb.Arbiter
use bsa_pcie_exerciser.Usb.Arbiter.Framing.{Receiver, between, receive_all, sent, run-framed}
use bsa_pcie_exerciser.Usb.Capture.{
  Inputs, step, reset, tap_of, header_valid, full_header, header_words, first_beat, last_beat,
  req_active, request_tap,
}
use bsa_pcie_exerciser.Usb.Capture.Packet.{Captures, Carries, parsed, lost, any_lost, packet-header}

abbrev start : Inputs
start = record {
  enable = true;
  timestamp = 5;
  clear_stats = false;
  tap_req_valid = true;
  tap_req_ready = true;
  tap_req_first = true;
  tap_req_last = false;
  tap_req_we = true;
  tap_req_adr = 0x1000;
  tap_req_len = 6;
  tap_req_req_id = 0x100;
  tap_req_tag = 1;
  tap_req_dat = 0;
  tap_req_first_be = 0xf;
  tap_req_last_be = 0xf;
  tap_req_attr = 0;
  tap_req_at = 0;
  tap_req_bar_hit = 1;
  tap_req_pasid_valid = false;
  tap_req_pasid = 0;
  tap_req_privileged = false;
  tap_req_execute = false;
  tap_cpl_valid = false;
  tap_cpl_ready = false;
  tap_cpl_first = false;
  tap_cpl_last = false;
  tap_cpl_adr = 0;
  tap_cpl_len = 0;
  tap_cpl_req_id = 0;
  tap_cpl_tag = 0;
  tap_cpl_dat = 0;
  tap_cpl_status = 0;
  tap_cpl_cmp_id = 0;
  tap_cpl_byte_count = 0;
  header_ready = true;
  payload_ready = true;
}

-- The second beat finds the payload FIFO full.
abbrev middle : Inputs
middle = record start { tap_req_first = false; payload_ready = false }

abbrev end : Inputs
end = record start { tap_req_first = false; tap_req_last = true }

start-Captures : Captures reset start (middle ∷ []) end
unfolding tap_of first_beat last_beat req_active request_tap
start-Captures = record {
  idle = refl;
  starts = refl;
  goes_on = refl;
  room = refl;
  inner = (refl, refl, tt);
  continues = refl;
  ends = refl;
}

packet-header_example :
    let cut = (lost start || any_lost (middle ∷ [])) || lost end in
    let words = full_header false (run step reset (start ∷ middle ∷ [])) end in
    (header_valid end (tap_of end) (run step reset (start ∷ middle ∷ [])) ≡ true)
    × (words ≡ header_words false (tap_of start).fields cut)
    × Carries false (tap_of start).fields cut (parsed words)
packet-header_example = packet-header false reset start (middle ∷ []) end start-Captures

-- An inbound packet with one payload word.
abbrev fed : Arbiter.Inputs
fed = record {
  rx_header_valid = true;
  rx_header_data = 1;
  tx_header_valid = false;
  tx_header_data = 0;
  rx_payload_valid = true;
  rx_payload_data = 7;
  tx_payload_valid = false;
  tx_payload_data = 0;
  source_ready = true;
}

run-framed_example :
    (r : Receiver) × (receive_all between (sent Arbiter.reset (fed ∷ fed ∷ fed ∷ [])) ≡ some r)
run-framed_example = run-framed (fed ∷ fed ∷ fed ∷ [])
