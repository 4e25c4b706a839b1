-- ===== src/Usb/Packetizer.antt =====
-- The packetizer of the USB core, src/bsa_pcie_exerciser/gateware/usb/core.py, the class
-- USBPacketizer.
pub mod Sent
use bsa_pcie_exerciser.Prelude.{
  ℕ, ◌%◌, ◌^◌, Bool, true, false, ◌&&◌, not, if◌then◌else◌, List, [], ◌∷◌,
}
use bsa_pcie_exerciser.Usb.Streams.{Unpack}

-- A beat of a channel; `error` is not used.
pub record Beat : Type 0 where
  pub dst : ℕ
  pub length : ℕ
  pub word : ℕ
  pub last : Bool

abbrev pub preamble : ℕ
preamble = 0x5aa55aa5

-- The three header words.
abbrev pub header : Beat → List ℕ
header b = preamble ∷ b.dst ∷ b.length ∷ []

pub data State : Type 0 where
  idle insert_header copy : State

pub record Packetizer (U : Type 0) : Type 0 where
  pub state : State
  pub header_unpack : U

-- The channel's beat and the readiness of the PHY.
pub record Inputs : Type 0 where
  pub valid : Bool
  pub beat : Beat
  pub source_ready : Bool

module _ (unpack : Unpack 3) where
  open unpack use {Unpacking, start, step, word, sink_ready}

  abbrev pub reset : Packetizer Unpacking
  reset = record { state = idle; header_unpack = start }

  source_valid_in : State → Inputs → Bool
  source_valid_in idle i = false
  source_valid_in insert_header i = true
  source_valid_in copy i = i.valid

  unfoldable pub source_valid : Packetizer Unpacking → Inputs → Bool
  unfolding source_valid_in
  source_valid s i = source_valid_in s.state i

  source_word_in : State → Unpacking → Inputs → ℕ
  source_word_in idle u i = 0
  source_word_in insert_header u i = word u (header i.beat)
  source_word_in copy u i = i.beat.word

  unfoldable pub source_word : Packetizer Unpacking → Inputs → ℕ
  unfolding source_word_in
  source_word s i = source_word_in s.state s.header_unpack i

  ready_in : State → Inputs → Bool
  ready_in idle i = false
  ready_in insert_header i = false
  ready_in copy i = i.source_ready

  unfoldable pub ready : Packetizer Unpacking → Inputs → Bool
  unfolding ready_in
  ready s i = ready_in s.state i

  next_in : State → Unpacking → Inputs → State
  next_in idle u i = if i.valid then insert_header else idle
  next_in insert_header u i = if sink_ready u i.source_ready then copy else insert_header
  next_in copy u i = if i.valid && i.source_ready && i.beat.last then idle else copy

  unpack_in : State → Unpacking → Inputs → Unpacking
  unpack_in idle u i = step u false false
  unpack_in insert_header u i = step u true i.source_ready
  unpack_in copy u i = step u false false

  unfoldable pub cycle : Packetizer Unpacking → Inputs → Packetizer Unpacking
  unfolding next_in unpack_in
  cycle s i = record {
    state = next_in s.state s.header_unpack i;
    header_unpack = unpack_in s.state s.header_unpack i;
  }
