-- ===== src/Tests/Stream.antt =====
-- A memory write with one word in the stream.
use bsa_pcie_exerciser.Prelude.{ℕ, ◌≡◌, refl, true, false, some, List, [], ◌∷◌, arith}
use bsa_pcie_exerciser.Usb.Layouts.{build_header_word2}
use bsa_pcie_exerciser.Protocol.{Header, parse_tlp_packet, parse_stream}
use bsa_pcie_exerciser.Protocol.Roundtrip.{header_bytes, word0, word1, word3_rx, Widths}
use bsa_pcie_exerciser.Protocol.Payload.{words_bytes, parse-layout_rx}
use bsa_pcie_exerciser.Protocol.Stream.{stream_bytes, packets_of, parse_stream-frames}

abbrev inbound : Header
inbound = record {
  payload_length = 1;
  tlp_type = 1;
  direction = 0;
  truncated = false;
  header_words = 4;
  timestamp = 0x1_0000_0007;
  req_id = 0x100;
  tag = 9;
  first_be = 0xf;
  last_be = 0;
  address = 0xf000_1000;
  we = true;
  bar_hit = 1;
  attr = 0;
  at = 0;
  pasid_valid = false;
  pasid = 0;
  privileged = false;
  execute = false;
  status = 0;
  cmp_id = 0;
  byte_count = 0;
}

abbrev outbound : Header
outbound = record inbound {
  direction = 1;
  bar_hit = 0;
  at = 2;
  pasid_valid = true;
  pasid = 0x12345;
}

inbound-Widths : Widths inbound
inbound-Widths = record {
  len = omega arith;
  kind = omega arith;
  dir = omega arith;
  words = refl;
  time = omega arith;
  id = omega arith;
  tag = omega arith;
  first = omega arith;
  last = omega arith;
  addr = omega arith;
  bar = omega arith;
  attr = omega arith;
  at = omega arith;
  pasid = omega arith;
  status = omega arith;
  cmp = omega arith;
  count = omega arith;
}

outbound-Widths : Widths outbound
outbound-Widths = record {
  len = omega arith;
  kind = omega arith;
  dir = omega arith;
  words = refl;
  time = omega arith;
  id = omega arith;
  tag = omega arith;
  first = omega arith;
  last = omega arith;
  addr = omega arith;
  bar = omega arith;
  attr = omega arith;
  at = omega arith;
  pasid = omega arith;
  status = omega arith;
  cmp = omega arith;
  count = omega arith;
}

parse-layout_rx_example :
    parse_tlp_packet (
      header_bytes
        (word0 inbound)
        (word1 inbound)
        (build_header_word2 0xf000_1000)
        (word3_rx inbound)
        (words_bytes (0xdead_beef ∷ []) (1 ∷ [])))
    ≡ some (record { header = inbound; payload = 0xdead_beef ∷ [] })
parse-layout_rx_example =
    parse-layout_rx inbound (0xdead_beef ∷ []) (1 ∷ []) inbound-Widths
      (record { no_pasid = refl; no_value = refl; priv = refl; exec = refl }) (omega arith, tt) refl

-- A frame whose content holds the preamble, and one that is too short for a packet.
abbrev contents : List (List ℕ)
contents = (0xa5 ∷ 0x5a ∷ 0xa5 ∷ 0x5a ∷ []) ∷ (1 ∷ 2 ∷ []) ∷ []

parse_stream-frames_example : parse_stream (stream_bytes contents) ≡ some (packets_of contents)
parse_stream-frames_example = parse_stream-frames contents (omega arith, (omega arith, tt))
