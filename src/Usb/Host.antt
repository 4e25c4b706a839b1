-- ===== src/Usb/Host.antt =====
-- From the packetizer of the USB core to the host's parser, common/protocol.py: the PHY passes the
-- 32-bit words on as bytes, the lowest first.
use bsa_pcie_exerciser.Prelude.{
  ℕ, ◌≡◌, ◌∙◌, refl, ap, ap₂, sym, true, false, some, List, [], ◌∷◌, ◌++◌, length, arith, run,
}
use bsa_pcie_exerciser.Usb.Streams.{Unpack}
use bsa_pcie_exerciser.Usb.Packetizer.{Beat, Inputs, idle, reset, cycle}
use bsa_pcie_exerciser.Usb.Packetizer.Sent.{frame, sent, taken, Offers, sent-frames}
use bsa_pcie_exerciser.Usb.Link.{Packet, beats, beats_from, payload_bytes, Fits}
use bsa_pcie_exerciser.Protocol.{parse_stream}
use bsa_pcie_exerciser.Protocol.Roundtrip.{u32_bytes}
use bsa_pcie_exerciser.Protocol.Payload.{words_bytes, length-words_bytes, words_bytes-append}
use bsa_pcie_exerciser.Protocol.Stream.{
  stream_bytes, frame_bytes, packets_of, AllShort, parse_stream-frames,
}

-- The bytes of a payload.
unfoldable pub content : Packet → List ℕ
content p = words_bytes (p.head ∷ p.rest) []

unfoldable pub contents : List Packet → List (List ℕ)
contents [] = []
contents (p ∷ ps) = content p ∷ contents ps

-- Packets of the monitor's channel.
abbrev pub ForHost : List Packet → Type 0
ForHost [] = Unit {0}
ForHost (p ∷ ps) = (p.channel ≡ 1) × ForHost ps

length-content : (p : Packet) → length (content p) ≡ payload_bytes p
unfolding content
length-content p = omega (arith, length-words_bytes (p.head ∷ p.rest) [])

contents-short : (ps : List Packet) → Fits ps → AllShort (contents ps)
unfolding contents
contents-short [] f = tt
contents-short (p ∷ ps) (c, l, f) = (omega (arith, length-content p), contents-short ps f)

payload_on_wire :
    (d l w : ℕ) (ws : List ℕ) (bs : List Beat)
    → words_bytes (frame false (beats_from d l w ws ++ bs)) []
      ≡ words_bytes (w ∷ ws) (words_bytes (frame true bs) [])
unfolding frame beats_from words_bytes
payload_on_wire d l w [] bs = refl
payload_on_wire d l w (v ∷ vs) bs = ap (λ bytes. u32_bytes w ++ bytes) (payload_on_wire d l v vs bs)

header_on_wire :
    (d l w : ℕ) (ws : List ℕ) (bs : List Beat)
    → words_bytes (frame true (beats_from d l w ws ++ bs)) []
      ≡ u32_bytes 0x5aa55aa5
        ++ (u32_bytes d
            ++ (u32_bytes l ++ words_bytes (frame false (beats_from d l w ws ++ bs)) []))
unfolding frame beats_from words_bytes
header_on_wire d l w [] bs = refl
header_on_wire d l w (v ∷ vs) bs = refl

abbrev frame_header : ℕ → List ℕ
frame_header n = u32_bytes 0x5aa55aa5 ++ (u32_bytes 1 ++ u32_bytes n)

wire-stream :
    (ps : List Packet)
    → ForHost ps
    → words_bytes (frame true (beats ps)) [] ≡ stream_bytes (contents ps)
unfolding beats contents content stream_bytes frame_bytes
wire-stream [] h = unfold frame words_bytes in refl
wire-stream (p ∷ ps) (c, h) =
    let l = payload_bytes p in
    let after = words_bytes (frame false (beats_from p.channel l p.head p.rest ++ beats ps)) [] in
    let split : after ≡ content p ++ stream_bytes (contents ps) =
      payload_on_wire p.channel l p.head p.rest (beats ps)
      ∙ words_bytes-append (p.head ∷ p.rest) (words_bytes (frame true (beats ps)) [])
      ∙ ap (λ bytes. words_bytes (p.head ∷ p.rest) [] ++ bytes) (wire-stream ps h) in
    header_on_wire p.channel l p.head p.rest (beats ps)
    ∙ ap₂ (λ d n. u32_bytes 0x5aa55aa5 ++ (u32_bytes d ++ (u32_bytes n ++ after))) c
        (sym (length-content p))
    ∙ ap (λ bytes. frame_header (length (content p)) ++ bytes) split

module _ (unpack : Unpack 3) where
  -- Packets of the monitor's channel that the packetizer takes, from a source that holds what it offers
  -- until it is taken, reach the host: the bytes of the words that the PHY takes, however it stalls, are
  -- parsed into the TLPs that the payloads hold, in order; a payload that holds no complete TLP is
  -- passed over.
  pub parse_stream-sent :
      (ps : List Packet) (is : List Inputs)
      → Fits ps
      → ForHost ps
      → Offers unpack (reset unpack) is
      → (run (cycle unpack) (reset unpack) is).state ≡ idle
      → taken unpack (reset unpack) is ≡ beats ps
      → parse_stream (words_bytes (sent unpack (reset unpack) is) [])
        ≡ some (packets_of (contents ps))
  parse_stream-sent ps is f h o e t =
      ap (λ ws. parse_stream (words_bytes ws [])) (sent-frames unpack is o e ∙ ap (frame true) t)
      ∙ ap parse_stream (wire-stream ps h)
      ∙ parse_stream-frames (contents ps) (contents-short ps f)
