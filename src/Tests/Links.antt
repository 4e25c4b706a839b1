-- ===== src/Tests/Links.antt =====
-- The USB link: packetizer, depacketizer, crossbar and the host behind them.
use bsa_pcie_exerciser.Prelude.{
  ℕ, ◌≡◌, refl, Bool, true, false, some, List, [], ◌∷◌, replicate, arith, run,
}
use bsa_pcie_exerciser.Usb.Streams.{chunk_at}
use bsa_pcie_exerciser.Usb.Packetizer
use bsa_pcie_exerciser.Usb.Packetizer.{Beat, cycle, reset}
use bsa_pcie_exerciser.Usb.Packetizer.Sent.{sent, taken, Offers}
use bsa_pcie_exerciser.Usb.Depacketizer
use bsa_pcie_exerciser.Usb.Depacketizer.Given
use bsa_pcie_exerciser.Usb.Depacketizer.Timeout.{rests, run-rests}
use bsa_pcie_exerciser.Usb.Link.{Packet, beats, given-beats}
use bsa_pcie_exerciser.Usb.Host.{contents, parse_stream-sent}
use bsa_pcie_exerciser.Usb.Crossbar.{get_ports}
use bsa_pcie_exerciser.Protocol.{parse_stream}
use bsa_pcie_exerciser.Protocol.Payload.{words_bytes}
use bsa_pcie_exerciser.Protocol.Stream.{packets_of}
use bsa_pcie_exerciser.Tests.Blocks.{unpack, pack, timer}

-- A packet of two words, whose payload holds the preamble.
abbrev packet : Packet
packet = record { channel = 1; head = 0x5aa55aa5; rest = 7 ∷ [] }

abbrev one : Beat
one = record { dst = 1; length = 8; word = 0x5aa55aa5; last = false }

abbrev two : Beat
two = record { dst = 1; length = 8; word = 7; last = true }

abbrev offer : Beat → Bool → Packetizer.Inputs
offer b ready = record { valid = true; beat = b; source_ready = ready }

-- The PHY stalls once in the header and once in the payload.
abbrev offered : List Packetizer.Inputs
offered =
    offer one true
    ∷ offer one true
    ∷ offer one false
    ∷ offer one true
    ∷ offer one true
    ∷ offer one false
    ∷ offer one true
    ∷ offer two true
    ∷ []

offered-Offers : Offers unpack (reset unpack) offered
unfolding cycle chunk_at Packetizer.ready
offered-Offers = (
  λ w. (refl, refl),
  (
    λ w. (refl, refl),
    (
      λ w. (refl, refl),
      (
        λ w. (refl, refl),
        (λ w. (refl, refl), (λ w. (refl, refl), (λ w. (refl, cc), (λ w. tt, tt)))),
      ),
    ),
  ),
)

offered-ends : (run (cycle unpack) (reset unpack) offered).state ≡ Packetizer.idle
unfolding run cycle chunk_at
offered-ends = refl

offered-beats : taken unpack (reset unpack) offered ≡ beats (packet ∷ [])
unfolding taken cycle chunk_at Packetizer.ready beats
offered-beats = refl

-- Noise, the header with a pause, and the payload with a stall.
abbrev word_in : ℕ → Bool → Depacketizer.Inputs
word_in w ready = record { valid = true; word = w; source_ready = ready }

abbrev pause : Depacketizer.Inputs
pause = record { valid = false; word = 0; source_ready = true }

abbrev noise : List Depacketizer.Inputs
noise = word_in 3 true ∷ []

abbrev received : List Depacketizer.Inputs
received =
    word_in 0x5aa55aa5 true
    ∷ pause
    ∷ word_in 1 true
    ∷ word_in 8 true
    ∷ word_in 0x5aa55aa5 true
    ∷ word_in 0x5aa55aa5 false
    ∷ word_in 0x5aa55aa5 true
    ∷ word_in 7 true
    ∷ []

received-rests :
    (run (Depacketizer.cycle pack timer) (Depacketizer.reset pack timer) noise).state
    ≡ Depacketizer.idle
unfolding run Depacketizer.cycle
received-rests = refl

received-InTime :
    Given.InTime pack timer
      (run (Depacketizer.cycle pack timer) (Depacketizer.reset pack timer) noise)
      received
unfolding run Depacketizer.cycle
received-InTime = (
  λ n. refl,
  (λ n. refl, (λ n. refl, (λ n. refl, (λ n. refl, (λ n. refl, (λ n. refl, (λ n. refl, tt))))))),
)

received-sent :
    Given.taken pack timer
      (run (Depacketizer.cycle pack timer) (Depacketizer.reset pack timer) noise)
      received
    ≡ sent unpack (reset unpack) offered
unfolding run Depacketizer.cycle Given.taken Depacketizer.ready sent cycle chunk_at
    Packetizer.source_valid Packetizer.source_word
received-sent = refl

given-beats_example :
    Given.given pack timer
      (run (Depacketizer.cycle pack timer) (Depacketizer.reset pack timer) noise)
      received
    ≡ beats (packet ∷ [])
given-beats_example =
    given-beats unpack pack timer (packet ∷ []) offered noise received (omega arith) offered-Offers
      offered-ends offered-beats received-rests received-InTime received-sent

-- A packet breaks off behind its preamble.
run-rests_example :
    rests pack timer
      (run
        (Depacketizer.cycle pack timer)
        (Depacketizer.reset pack timer)
        (word_in 0x5aa55aa5 true ∷ []))
      (replicate 101 pause)
    ≡ true
run-rests_example =
    run-rests pack timer (word_in 0x5aa55aa5 true ∷ []) (replicate 101 pause) (omega arith)

parse_stream-sent_example :
    parse_stream (words_bytes (sent unpack (reset unpack) offered) [])
    ≡ some (packets_of (contents (packet ∷ [])))
parse_stream-sent_example =
    parse_stream-sent unpack (packet ∷ []) offered (omega arith) (omega arith) offered-Offers
      offered-ends offered-beats

-- Etherbone on channel 0, the monitor on channel 1.
ports : get_ports [] (0 ∷ 1 ∷ []) ≡ some (0 ∷ 1 ∷ [])
unfolding get_ports
ports = refl
