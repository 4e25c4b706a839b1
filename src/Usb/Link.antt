-- ===== src/Usb/Link.antt =====
-- Both ends of the USB link, USBPacketizer and USBDepacketizer of
-- src/bsa_pcie_exerciser/gateware/usb/core.py: what is put in on one side comes out on the other.
use bsa_pcie_exerciser.Prelude.{
  ℕ, ◌+◌, ◌*◌, ◌/◌, ◌^◌, ◌<◌, ◌≡◌, ◌∙◌, refl, ap, ap₂, true, false, List, [], ◌∷◌, ◌++◌, length,
  arith, run,
}
use bsa_pcie_exerciser.Usb.Streams.{Unpack, Pack, WaitTimer}
use bsa_pcie_exerciser.Usb.Packetizer
use bsa_pcie_exerciser.Usb.Packetizer.{Beat, header, preamble}
use bsa_pcie_exerciser.Usb.Packetizer.Sent
use bsa_pcie_exerciser.Usb.Packetizer.Sent.{frame, sent-frames}
use bsa_pcie_exerciser.Usb.Depacketizer
use bsa_pcie_exerciser.Usb.Depacketizer.Given
use bsa_pcie_exerciser.Usb.Depacketizer.Given.{
  Mode, search, dst_next, length_next, copying, unframe, given-unframe,
}

-- A packet: its channel, and its payload of at least one word.
pub record Packet : Type 0 where
  pub channel : ℕ
  pub head : ℕ
  pub rest : List ℕ

abbrev pub payload_bytes : Packet → ℕ
payload_bytes p = 4 * (length p.rest + 1)

unfoldable pub beats_from : ℕ → ℕ → ℕ → List ℕ → List Beat
beats_from d l w [] = record { dst = d; length = l; word = w; last = true } ∷ []
beats_from d l w (v ∷ vs) =
    record { dst = d; length = l; word = w; last = false } ∷ beats_from d l v vs

-- The beats of packets in the channel's format: the channel and the length in bytes on every beat.
unfoldable pub beats : List Packet → List Beat
unfolding beats_from
beats [] = []
beats (p ∷ ps) = beats_from p.channel (payload_bytes p) p.head p.rest ++ beats ps

abbrev pub Fits : List Packet → Type 0
Fits [] = Unit {0}
Fits (p ∷ ps) = (p.channel < 2 ^ 8) × (payload_bytes p < 2 ^ 32) × Fits ps

unframe_payload :
    (d l c w : ℕ) (ws : List ℕ) (bs : List Beat)
    → c + length ws + 1 ≡ l / 4
    → l < 2 ^ 32
    → unframe (copying d l c) (frame false (beats_from d l w ws ++ bs))
      ≡ beats_from d l w ws ++ unframe search (frame true bs)
unfolding unframe frame beats_from
unframe_payload d l c w [] bs e h = ground arith
unframe_payload d l c w (v ∷ vs) bs e h = ground (arith, unframe_payload d l (c + 1) v vs bs)

unframe_header :
    (d l w : ℕ) (ws : List ℕ) (bs : List Beat)
    → d < 2 ^ 8
    → l < 2 ^ 32
    → unframe search (frame true (beats_from d l w ws ++ bs))
      ≡ unframe (copying d l 0) (frame false (beats_from d l w ws ++ bs))
unfolding unframe frame beats_from
unframe_header d l w [] bs h k =
    ap₂ (λ x y. unframe (copying x y 0) (frame false (beats_from d l w [] ++ bs))) (omega arith)
      (omega arith)
unframe_header d l w (v ∷ vs) bs h k =
    ap₂ (λ x y. unframe (copying x y 0) (frame false (beats_from d l w (v ∷ vs) ++ bs)))
      (omega arith) (omega arith)

unframe_packets : (ps : List Packet) → Fits ps → unframe search (frame true (beats ps)) ≡ beats ps
unfolding beats
unframe_packets [] f = unfold unframe frame in refl
unframe_packets (p ∷ ps) (c, l, f) =
    unframe_header p.channel (payload_bytes p) p.head p.rest (beats ps) c l
    ∙ unframe_payload p.channel (payload_bytes p) 0 p.head p.rest (beats ps) (omega arith) l
    ∙ ap (λ bs. beats_from p.channel (payload_bytes p) p.head p.rest ++ bs) (unframe_packets ps f)

module _ (unpack : Unpack 3) (pack : Pack 2) (wait_timer : WaitTimer) where
  -- When the packetizer's source holds what it offers until it is taken, and the beats taken are those
  -- of packets of at least one word, each with its length in bytes and its channel on every beat; when
  -- the depacketizer takes the words that were sent, beginning at rest, with any pauses and stalls, but
  -- in time: it gives the same beats, `last` on the last beat of each packet and on no other.
  pub given-beats :
      (ps : List Packet) (is : List Packetizer.Inputs) (before js : List Depacketizer.Inputs)
      → let sender = Packetizer.reset unpack in
        let receiver =
          run (Depacketizer.cycle pack wait_timer) (Depacketizer.reset pack wait_timer) before in
        Fits ps
        → Sent.Offers unpack sender is
        → (run (Packetizer.cycle unpack) sender is).state ≡ Packetizer.idle
        → Sent.taken unpack sender is ≡ beats ps
        → receiver.state ≡ Depacketizer.idle
        → Given.InTime pack wait_timer receiver js
        → Given.taken pack wait_timer receiver js ≡ Sent.sent unpack sender is
        → Given.given pack wait_timer receiver js ≡ beats ps
  given-beats ps is before js f o e t r h w =
      given-unframe pack wait_timer before js r h
      ∙ ap (unframe search) (w ∙ sent-frames unpack is o e ∙ ap (frame true) t)
      ∙ unframe_packets ps f
