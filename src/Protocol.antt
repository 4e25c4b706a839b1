-- ===== src/Protocol.antt =====
-- The host's parser of the monitor stream, src/bsa_pcie_exerciser/common/protocol.py. Data is a list
-- of bytes; `struct.unpack` and `bytes.find` are Python's own.
pub mod Roundtrip
pub mod Payload
pub mod Frames
pub mod Stream
use bsa_pcie_exerciser.Prelude.{
  ℕ, zero, suc, ◌+◌, ◌*◌, ◌^◌, Bool, true, false, ◌&&◌, ◌==◌, leb, ltb, not, if◌then◌else◌, bit,
  slice, Option, none, some, List, [], ◌∷◌, ◌++◌, length, take, drop,
}

-- struct.unpack('<I', ...) of the first four bytes. Every caller has checked the length.
unfoldable pub u32 : List ℕ → ℕ
u32 (a ∷ b ∷ c ∷ d ∷ _) = a + b * 2 ^ 8 + c * 2 ^ 16 + d * 2 ^ 24
u32 _ = 0

-- data[lo:hi]
unfoldable pub bytes_at : List ℕ → ℕ → ℕ → List ℕ
bytes_at d lo width = take width (drop lo d)

unfoldable pub word_at : List ℕ → ℕ → ℕ
unfolding u32 bytes_at
word_at d off = u32 (bytes_at d off 4)

-- The 64-bit header word at byte `off`.
unfoldable pub quad_at : List ℕ → ℕ → ℕ
quad_at d off = word_at d off + word_at d (off + 4) * 2 ^ 32

pub record Header : Type 0 where
  pub payload_length : ℕ
  pub tlp_type : ℕ
  pub direction : ℕ
  pub truncated : Bool
  pub header_words : ℕ
  pub timestamp : ℕ
  pub req_id : ℕ
  pub tag : ℕ
  pub first_be : ℕ
  pub last_be : ℕ
  pub address : ℕ
  pub we : Bool
  pub bar_hit : ℕ
  pub attr : ℕ
  pub at : ℕ
  pub pasid_valid : Bool
  pub pasid : ℕ
  pub privileged : Bool
  pub execute : Bool
  pub status : ℕ
  pub cmp_id : ℕ
  pub byte_count : ℕ

unfoldable pub header_of : ℕ → ℕ → ℕ → ℕ → Header
header_of h0 h1 h2 h3 = record {
  payload_length = slice h0 0 10;
  tlp_type = slice h0 10 4;
  direction = slice h0 14 1;
  truncated = bit h0 15;
  header_words = slice h0 16 16;
  timestamp = slice h0 32 32 + slice h1 0 32 * 2 ^ 32;
  req_id = slice h1 32 16;
  tag = slice h1 48 8;
  first_be = slice h1 56 4;
  last_be = slice h1 60 4;
  address = h2;
  we = bit h3 0;
  bar_hit = slice h3 1 3;
  attr = slice h3 4 2;
  at = slice h3 6 2;
  pasid_valid = bit h3 8;
  pasid = slice h3 9 20;
  privileged = bit h3 29;
  execute = bit h3 30;
  status = slice h3 29 3;
  cmp_id = slice h3 32 16;
  byte_count = slice h3 48 12;
}

abbrev pub tlp_header_size : ℕ
tlp_header_size = 32

unfoldable pub parse_tlp_header : List ℕ → Option Header
parse_tlp_header d =
    if ltb (length d) tlp_header_size
    then none
    else some (header_of (quad_at d 0) (quad_at d 8) (quad_at d 16) (quad_at d 24))

-- TLPPacket: the fields of the header and the payload.
pub record Packet : Type 0 where
  pub header : Header
  pub payload : List ℕ

-- The loop over the payload, from byte `off`.
unfoldable pub payload_words : List ℕ → ℕ → ℕ → List ℕ
payload_words d off zero = []
payload_words d off (suc n) = word_at d off ∷ payload_words d (off + 4) n

-- The rest of parse_tlp_packet, once the header is parsed.
unfoldable pub finish_packet : List ℕ → Option Header → Option Packet
finish_packet d none = none
finish_packet d (some h) =
    if ltb (length d) (tlp_header_size + h.payload_length * 4)
    then none
    else some (record { header = h; payload = payload_words d tlp_header_size h.payload_length })

unfoldable pub parse_tlp_packet : List ℕ → Option Packet
unfolding finish_packet
parse_tlp_packet d = finish_packet d (parse_tlp_header d)

abbrev pub usb_frame_header_size : ℕ
usb_frame_header_size = 12

abbrev pub usb_monitor_channel : ℕ
usb_monitor_channel = 1

-- struct.pack('<I', 0x5AA55AA5)
abbrev pub preamble_bytes : List ℕ
preamble_bytes = 0xa5 ∷ 0x5a ∷ 0xa5 ∷ 0x5a ∷ []

unfoldable pub starts_with : List ℕ → List ℕ → Bool
starts_with [] d = true
starts_with (p ∷ ps) [] = false
starts_with (p ∷ ps) (x ∷ xs) = p == x && starts_with ps xs

-- bytes.find: the first place at which the pattern stands (the pattern is not empty).
unfoldable pub search_bytes : List ℕ → List ℕ → Option ℕ
unfolding starts_with
search_bytes ps [] = none
search_bytes ps (x ∷ xs) =
    if starts_with ps (x ∷ xs)
    then some 0
    else elim (search_bytes ps xs) [ none ↦ none | some n ↦ some (suc n) ]

unfoldable pub find : List ℕ → List ℕ → ℕ → Option ℕ
unfolding search_bytes
find d ps off = elim (search_bytes ps (drop off d)) [ none ↦ none | some n ↦ some (off + n) ]

-- find_usb_frame: what it returns, or `none` if the fuel runs out.
abbrev pub Found : Type 0
Found = Option (List ℕ) × ℕ

-- What the loop does at a preamble: it goes on behind it, or returns.
pub data Verdict : Type 0 where
  retry : Verdict
  answer : Found → Verdict

unfoldable pub examine : List ℕ → ℕ → Verdict
examine d idx =
    let frame_end = idx + usb_frame_header_size + word_at d (idx + 8) in
    if ltb (length d) (idx + usb_frame_header_size)
    then answer (none, idx)
    else if not (word_at d (idx + 4) == usb_monitor_channel)
    then retry
    else if ltb (length d) frame_end
    then answer (none, idx)
    else answer (some (bytes_at d (idx + usb_frame_header_size) (word_at d (idx + 8))), frame_end)

unfoldable pub find_usb_frame : ℕ → List ℕ → ℕ → Option Found
find_usb_frame zero d off = none
find_usb_frame (suc f) d off = elim (ltb (length d) (off + usb_frame_header_size)) [
  | true ↦ some (none, length d)
  | false ↦ elim (find d preamble_bytes off) [
    | none ↦ some (none, length d)
    | some idx ↦ elim (examine d idx) [ retry ↦ find_usb_frame f d (idx + 1) | answer r ↦ some r ]
  ]
]

-- parse_stream, from byte `off`.
unfoldable pub parse_from : ℕ → List ℕ → ℕ → Option (List Packet)
parse_from zero d off = none
parse_from (suc f) d off =
    if not (ltb off (length d)) then some [] else elim (find_usb_frame (length d + 1) d off) [
      | none ↦ none
      | some (none, consumed) ↦ some []
      | some (some frame, consumed) ↦ elim (parse_from f d consumed) [
        | none ↦ none
        | some rest ↦ some (elim (parse_tlp_packet frame) [ none ↦ rest | some p ↦ p ∷ rest ])
      ]
    ]

unfoldable pub parse_stream : List ℕ → Option (List Packet)
parse_stream d = parse_from (length d + 1) d 0
