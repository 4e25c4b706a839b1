-- ===== src/Usb/Depacketizer.antt =====
-- The depacketizer of the USB core, src/bsa_pcie_exerciser/gateware/usb/core.py, the class
-- USBDepacketizer.
pub mod Given
pub mod Timeout
use bsa_pcie_exerciser.Prelude.{
  ℕ, ◌+◌, ◌/◌, ◌%◌, ◌^◌, Bool, true, false, ◌&&◌, ◌||◌, not, ◌==◌, if◌then◌else◌,
}
use bsa_pcie_exerciser.Usb.Streams.{Pack, WaitTimer}
use bsa_pcie_exerciser.Usb.Packetizer.{Beat, preamble}

pub data State : Type 0 where
  idle receive_header copy : State

pub record Depacketizer (P T : Type 0) : Type 0 where
  pub state : State
  pub header_pack : P
  pub timer : T
  pub cnt : ℕ

-- The PHY's word and the readiness of the crossbar.
pub record Inputs : Type 0 where
  pub valid : Bool
  pub word : ℕ
  pub source_ready : Bool

-- Whether the channel's beat is valid.
unfoldable pub valid_in : State → Inputs → Bool
valid_in idle i = false
valid_in receive_header i = false
valid_in copy i = i.valid

module _ (pack : Pack 2) (wait_timer : WaitTimer) where
  open pack use {Packing, source_valid, chunk}
  open wait_timer use {Timing, done}

  abbrev pub reset : Depacketizer Packing Timing
  reset = record { state = idle; header_pack = pack.start; timer = wait_timer.start; cnt = 0 }

  -- `source.dst` has 8 bits.
  unfoldable pub dst : Depacketizer Packing Timing → ℕ
  dst s = chunk s.header_pack 0 % 2 ^ 8

  unfoldable pub length : Depacketizer Packing Timing → ℕ
  length s = chunk s.header_pack 1 % 2 ^ 32

  -- The words of the payload are counted; the length is in bytes.
  unfoldable pub last : Depacketizer Packing Timing → Bool
  unfolding length
  last s = s.cnt + 1 == length s / 4

  ready_in : State → Depacketizer Packing Timing → Inputs → Bool
  ready_in idle s i = true
  ready_in receive_header s i = not (done s.timer) && not (source_valid s.header_pack)
  ready_in copy s i = i.source_ready

  unfoldable pub ready : Depacketizer Packing Timing → Inputs → Bool
  unfolding ready_in
  ready s i = ready_in s.state s i

  unfoldable pub beat_of : Depacketizer Packing Timing → Inputs → Beat
  unfolding dst length last
  beat_of s i = record { dst = dst s; length = length s; word = i.word; last = last s }

  next_in : State → Depacketizer Packing Timing → Inputs → State
  unfolding last
  next_in idle s i = if (i.word == preamble) && i.valid then receive_header else idle
  next_in receive_header s i =
      if done s.timer then idle else if source_valid s.header_pack then copy else receive_header
  next_in copy s i = if (i.valid && i.source_ready && last s) || done s.timer then idle else copy

  pack_in : State → Depacketizer Packing Timing → Inputs → Packing
  pack_in idle s i = pack.step s.header_pack (done s.timer) false 0 true
  pack_in receive_header s i = pack.step s.header_pack (done s.timer) i.valid i.word false
  pack_in copy s i = pack.step s.header_pack (done s.timer) false 0 false

  waiting : State → Bool
  waiting idle = false
  waiting receive_header = true
  waiting copy = true

  cnt_in : State → ℕ → Inputs → ℕ
  cnt_in idle cnt i = 0
  cnt_in receive_header cnt i = cnt
  cnt_in copy cnt i = if i.valid && i.source_ready then (cnt + 1) % 2 ^ 32 else cnt

  unfoldable pub cycle : Depacketizer Packing Timing → Inputs → Depacketizer Packing Timing
  unfolding next_in pack_in waiting cnt_in
  cycle s i = record {
    state = next_in s.state s i;
    header_pack = pack_in s.state s i;
    timer = wait_timer.step s.timer (waiting s.state);
    cnt = cnt_in s.state s.cnt i;
  }
