-- ===== src/Tools/Capture.antt =====
-- The UDP receiver of the host, src/bsa_pcie_exerciser/tools/capture.py: MonitorCapture with the buffer
-- of its receive loop. The socket, the thread and its lock are Python's own: `receive` is what the loop
-- does with one datagram, and `calls` stands for the calls of the callback, whose exceptions the loop
-- drops.
pub mod Frames
pub mod Splits
pub mod Total
use bsa_pcie_exerciser.Prelude.{
  ℕ, zero, suc, ◌+◌, ◌-◌, Bool, true, false, ltb, if◌then◌else◌, Option, none, some, List, [], ◌∷◌,
  ◌++◌, length, drop,
}
use bsa_pcie_exerciser.Protocol.{Packet, find_usb_frame, parse_tlp_packet, tlp_header_size}

-- find_packet: `none` if the fuel of the search runs out.
unfoldable pub find_packet : List ℕ → Option (Option Packet × ℕ)
find_packet d = elim (find_usb_frame (length d + 1) d 0) [
  | none ↦ none
  | some (none, consumed) ↦ some (none, consumed)
  | some (some frame, consumed) ↦ some (parse_tlp_packet frame, consumed)
]

pub record MonitorCapture : Type 0 where
  pub buffer : List ℕ
  pub packets : List Packet
  pub packets_received : ℕ
  pub bytes_received : ℕ
  pub parse_errors : ℕ
  pub calls : List Packet

-- What a deque with `maxlen` keeps: the newest entries.
unfoldable pub newest {ℓ} : {A : Type ℓ} → ℕ → List A → List A
newest maxlen xs = drop (length xs - maxlen) xs

-- max(1, k)
unfoldable pub at_least_one : ℕ → ℕ
at_least_one k = if ltb 1 k then k else 1

-- No packet: some bytes are discarded. `consumed - PACKET_SIZE` may be negative, where the maximum is 1
-- as well.
unfoldable pub discard : MonitorCapture → ℕ → MonitorCapture
unfolding at_least_one
discard s consumed = record s {
  buffer = drop (at_least_one (consumed - tlp_header_size)) s.buffer;
  parse_errors = s.parse_errors + 1;
}

unfoldable pub accept : ℕ → MonitorCapture → Packet → ℕ → MonitorCapture
unfolding newest
accept buffer_size s p consumed = record s {
  buffer = drop consumed s.buffer;
  packets_received = s.packets_received + 1;
  packets = newest buffer_size (s.packets ++ (p ∷ []));
  calls = s.calls ++ (p ∷ []);
}

-- The inner loop.
unfoldable pub extract : ℕ → ℕ → MonitorCapture → Option MonitorCapture
unfolding find_packet discard accept
extract buffer_size zero s = none
extract buffer_size (suc f) s = elim (ltb (length s.buffer) tlp_header_size) [
  | true ↦ some s
  | false ↦ elim (find_packet s.buffer) [
    | none ↦ none
    | some (none, consumed) ↦ some (discard s consumed)
    | some (some p, consumed) ↦ extract buffer_size f (accept buffer_size s p consumed)
  ]
]

unfoldable pub appended : MonitorCapture → List ℕ → MonitorCapture
appended s bytes = record s {
  bytes_received = s.bytes_received + length bytes;
  buffer = s.buffer ++ bytes;
}

unfoldable pub receive : ℕ → MonitorCapture → List ℕ → Option MonitorCapture
unfolding extract appended
receive buffer_size s bytes =
    extract buffer_size (length s.buffer + length bytes + 1) (appended s bytes)

-- The outer loop, over the datagrams that arrive.
unfoldable pub receive_loop : ℕ → MonitorCapture → List (List ℕ) → Option MonitorCapture
unfolding receive
receive_loop buffer_size s [] = some s
receive_loop buffer_size s (bytes ∷ more) = elim (receive buffer_size s bytes) [
  | none ↦ none
  | some s' ↦ receive_loop buffer_size s' more
]

-- get_packets
unfoldable pub get_packets : Bool → MonitorCapture → List Packet × MonitorCapture
get_packets clear s = (s.packets, if clear then record s { packets = [] } else s)

-- get_packet, one look at the buffer.
unfoldable pub get_packet : MonitorCapture → Option Packet × MonitorCapture
get_packet s = elim s.packets [ [] ↦ (none, s) | p ∷ ps ↦ (some p, record s { packets = ps }) ]
