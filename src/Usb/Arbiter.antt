-- ===== src/Usb/Arbiter.antt =====
-- The arbiter of the two directions, src/bsa_pcie_exerciser/gateware/usb/monitor/arbiter.py.
pub mod Framing
pub mod Payload
use bsa_pcie_exerciser.Prelude.{
  ℕ, ◌+◌, ◌*◌, ◌-◌, ◌%◌, ◌^◌, Bool, true, false, ◌&&◌, not, ltb, ◌==◌, if◌then◌else◌, bit, slice,
}

pub data State : Type 0 where
  idle header payload pad : State

-- The registers of the module.
pub record Arbiter : Type 0 where
  pub state : State
  pub from_tx : Bool
  pub header_count : ℕ
  pub payload_count : ℕ
  pub payload_length_dw : ℕ
  pub payload_odd : Bool
  pub packet_length_bytes : ℕ

-- The four FIFOs' outputs and the readiness of the crossbar, in one cycle.
pub record Inputs : Type 0 where
  pub rx_header_valid : Bool
  pub rx_header_data : ℕ
  pub tx_header_valid : Bool
  pub tx_header_data : ℕ
  pub rx_payload_valid : Bool
  pub rx_payload_data : ℕ
  pub tx_payload_valid : Bool
  pub tx_payload_data : ℕ
  pub source_ready : Bool

-- The output stream of one cycle; `dst` is the channel and `error` is 0.
pub record Output : Type 0 where
  pub valid : Bool
  pub word : ℕ
  pub first : Bool
  pub last : Bool
  pub length : ℕ

abbrev pub header_words_32 : ℕ
header_words_32 = 8

abbrev pub reset : Arbiter
reset = record {
  state = idle;
  from_tx = false;
  header_count = 0;
  payload_count = 0;
  payload_length_dw = 0;
  payload_odd = false;
  packet_length_bytes = 0;
}

unfoldable pub header_valid : Arbiter → Inputs → Bool
header_valid s i = if s.from_tx then i.tx_header_valid else i.rx_header_valid

unfoldable pub header_data : Arbiter → Inputs → ℕ
header_data s i = if s.from_tx then i.tx_header_data else i.rx_header_data

unfoldable pub payload_valid : Arbiter → Inputs → Bool
payload_valid s i = if s.from_tx then i.tx_payload_valid else i.rx_payload_valid

unfoldable pub payload_data : Arbiter → Inputs → ℕ
payload_data s i = if s.from_tx then i.tx_payload_data else i.rx_payload_data

-- What IDLE latches from the first header word of the packet that it chooses.
unfoldable pub choose : Arbiter → Bool → ℕ → Arbiter
choose s tx w = record s {
  state = header;
  from_tx = tx;
  header_count = header_words_32;
  payload_length_dw = slice w 0 10;
  payload_odd = bit w 0;
  packet_length_bytes = (header_words_32 + slice w 0 10) * 4 % 2 ^ 32;
}

in_idle : Arbiter → Inputs → Arbiter
unfolding choose
in_idle s i =
    if i.rx_header_valid
    then choose s false i.rx_header_data
    else if i.tx_header_valid
    then choose s true i.tx_header_data
    else s

in_header : Arbiter → Inputs → Arbiter
unfolding header_valid
in_header s i =
    if not (header_valid s i && i.source_ready)
    then s
    else if s.header_count == 1
    then record s {
      header_count = s.header_count - 1;
      payload_count = s.payload_length_dw;
      state = if ltb 0 s.payload_length_dw then payload else idle;
    }
    else record s { header_count = s.header_count - 1 }

in_payload : Arbiter → Inputs → Arbiter
unfolding payload_valid
in_payload s i = if not (payload_valid s i && i.source_ready) then s else record s {
  payload_count = s.payload_count - 1;
  state = if s.payload_count == 1 then (if s.payload_odd then pad else idle) else payload;
}

in_pad : Arbiter → Inputs → Arbiter
unfolding payload_valid
in_pad s i = if payload_valid s i then record s { state = idle } else s

dispatch : State → Arbiter → Inputs → Arbiter
unfolding in_idle in_header in_payload in_pad
dispatch idle s i = in_idle s i
dispatch header s i = in_header s i
dispatch payload s i = in_payload s i
dispatch pad s i = in_pad s i

-- One clock cycle.
unfoldable pub step : Arbiter → Inputs → Arbiter
unfolding dispatch
step s i = dispatch s.state s i

present : State → Arbiter → Inputs → Output
unfolding header_valid header_data payload_valid payload_data
present idle s i = record {
  valid = false;
  word = 0;
  first = false;
  last = false;
  length = s.packet_length_bytes;
}
present header s i = record {
  valid = header_valid s i;
  word = header_data s i;
  first = s.header_count == header_words_32;
  last = s.header_count == 1 && s.payload_length_dw == 0;
  length = s.packet_length_bytes;
}
present payload s i = record {
  valid = payload_valid s i;
  word = payload_data s i;
  first = false;
  last = s.payload_count == 1;
  length = s.packet_length_bytes;
}
present pad s i = record {
  valid = false;
  word = 0;
  first = false;
  last = false;
  length = s.packet_length_bytes;
}

-- The combinational output stream.
unfoldable pub output : Arbiter → Inputs → Output
unfolding present
output s i = present s.state s i

takes : State → Arbiter → Inputs → Bool
takes idle s i = false
takes header s i = false
takes payload s i = i.source_ready
takes pad s i = true

-- The readiness towards the payload FIFO of the chosen direction.
unfoldable pub payload_ready : Arbiter → Inputs → Bool
unfolding takes
payload_ready s i = takes s.state s i

header_takes : State → Inputs → Bool
header_takes idle i = false
header_takes header i = i.source_ready
header_takes payload i = false
header_takes pad i = false

-- The readiness towards each of the four FIFOs.
unfoldable pub rx_header_ready : Arbiter → Inputs → Bool
unfolding header_takes
rx_header_ready s i = not s.from_tx && header_takes s.state i

unfoldable pub tx_header_ready : Arbiter → Inputs → Bool
unfolding header_takes
tx_header_ready s i = s.from_tx && header_takes s.state i

unfoldable pub rx_payload_ready : Arbiter → Inputs → Bool
unfolding payload_ready
rx_payload_ready s i = not s.from_tx && payload_ready s i

unfoldable pub tx_payload_ready : Arbiter → Inputs → Bool
unfolding payload_ready
tx_payload_ready s i = s.from_tx && payload_ready s i
