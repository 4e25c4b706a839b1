-- ===== src/Tests/Hosts.antt =====
-- The host's receiver of the monitor stream.
use bsa_pcie_exerciser.Prelude.{ℕ, ◌≡◌, refl, some, List, [], ◌∷◌, drop, replicate, arith}
use bsa_pcie_exerciser.Protocol.{
  Packet, search_bytes, parse_tlp_packet, parse_tlp_header, header_of, quad_at, word_at,
}
use bsa_pcie_exerciser.Protocol.Stream.{frame_bytes}
use bsa_pcie_exerciser.Tools.Capture.{MonitorCapture, receive_loop}
use bsa_pcie_exerciser.Tools.Capture.Frames.{Received, datagrams, packets_in, receive_loop-frames}
use bsa_pcie_exerciser.Tools.Capture.Splits.{IsLost, frame_start, receive_loop-IsLost}

abbrev fresh : MonitorCapture
fresh = record {
  buffer = [];
  packets = [];
  packets_received = 0;
  bytes_received = 0;
  parse_errors = 0;
  calls = [];
}

-- A packet without payload.
abbrev bare : List ℕ
bare = replicate 32 0

bare-holds : (p : Packet) × (parse_tlp_packet bare ≡ some p)
unfolding parse_tlp_packet parse_tlp_header header_of quad_at word_at
bare-holds = (_, refl)

-- Two frames in one datagram and one in the next, for a deque of two packets.
abbrev sent : List (List (List ℕ))
sent = (bare ∷ bare ∷ []) ∷ (bare ∷ []) ∷ []

receive_loop-frames_example :
    (s' : MonitorCapture) × (receive_loop 2 fresh (datagrams sent) ≡ some s')
    × Received 2 fresh (packets_in sent) s'
receive_loop-frames_example =
    receive_loop-frames 2 fresh sent
      (
        (omega arith, bare-holds, (omega arith, bare-holds, tt)),
        ((omega arith, bare-holds, tt), tt),
      )
      (omega arith) refl

receive_loop-IsLost_example :
    (s' : MonitorCapture) × (receive_loop 2 fresh (frame_start bare 20 ∷ drop 20 bare ∷ [])
      ≡ some s')
    × IsLost fresh s'
unfolding search_bytes frame_bytes
receive_loop-IsLost_example =
    receive_loop-IsLost 2 fresh bare 20 (omega arith) (omega arith) (omega arith) refl refl
