-- ===== src/Usb/Capture/Packet.antt =====
-- One packet of the taps and the header that the capture engine writes for it.
use bsa_pcie_exerciser.Prelude.{
  ℕ, ◌%◌, ◌^◌, b2n, if◌then◌else◌, refl, sym, ◌≡◌, subst, Bool, true, false, ◌&&◌, ◌||◌, not, List,
  [], ◌∷◌, arith, run, run-cons,
}
use bsa_pcie_exerciser.Usb.Capture.{
  Capture, Inputs, Fields, step, tap_of, first_beat, last_beat, any_beat, payload_write_failed,
  final_truncated, header_valid, use_fields, full_header, header_words, on_clear, on_first, on_beat,
  on_last, payload_valid,
}
use bsa_pcie_exerciser.Usb.Layouts.{
  build_header_word0, build_header_word1, build_header_word2, build_header_word3_rx,
  build_header_word3_tx,
}
use bsa_pcie_exerciser.Protocol.{Header, header_of}

-- A beat with payload that finds the payload FIFO full.
unfoldable pub lost : Inputs → Bool
lost i = any_beat i (tap_of i) && (tap_of i).fields.has_payload && not i.payload_ready

unfoldable pub any_lost : List Inputs → Bool
any_lost [] = false
any_lost (i ∷ is) = lost i || any_lost is

-- Cycles in which no packet starts or ends.
abbrev pub Inner : List Inputs → Type 0
Inner [] = Unit {0}
Inner (i ∷ is) = (first_beat i (tap_of i) ≡ false) × (last_beat i (tap_of i) ≡ false) × Inner is

-- A packet of two or more beats, the first of which the header FIFO has room for: a module that is
-- not dropping, the cycle of the first beat, the cycles between, the cycle of the last beat.
pub record Captures (s : Capture) (start : Inputs) (middle : List Inputs) (end : Inputs)
    : Type 0 where
  pub idle : s.dropping ≡ false
  pub starts : first_beat start (tap_of start) ≡ true
  pub goes_on : last_beat start (tap_of start) ≡ false
  pub room : start.header_ready ≡ true
  pub inner : Inner middle
  pub continues : first_beat end (tap_of end) ≡ false
  pub ends : last_beat end (tap_of end) ≡ true

-- The registers inside a packet.
record Under (f : Fields) (cut : Bool) (s : Capture) : Type 0 where
  kept : s.latched ≡ f
  awake : s.dropping ≡ false
  flag : s.payload_truncated ≡ cut

step_start :
    (s : Capture) (i : Inputs)
    → s.dropping ≡ false
    → first_beat i (tap_of i) ≡ true
    → last_beat i (tap_of i) ≡ false
    → i.header_ready ≡ true
    → Under (tap_of i).fields (lost i) (step s i)
unfolding step lost first_beat last_beat any_beat payload_write_failed payload_valid on_first
    on_beat on_last on_clear
step_start s i d f l h = let t = tap_of i in ground arith

step_inner :
    (s : Capture) (i : Inputs) (f : Fields) (cut : Bool)
    → first_beat i (tap_of i) ≡ false
    → last_beat i (tap_of i) ≡ false
    → Under f cut s
    → Under f (cut || lost i) (step s i)
unfolding step lost first_beat last_beat any_beat payload_write_failed payload_valid on_first
    on_beat on_last on_clear
step_inner s i f cut n l u = ground arith

or-cut : (a b c : Bool) → ((a || b) || c) ≡ (a || (b || c))
or-cut a b c = ground arith

run-Inner :
    (s : Capture) (is : List Inputs) (f : Fields) (cut : Bool)
    → Inner is
    → Under f cut s
    → Under f (cut || any_lost is) (run step s is)
unfolding run any_lost
run-Inner s [] f cut n u = subst (λ c. Under f c s) (ground arith) u
run-Inner s (i ∷ is) f cut (n, l, ns) u =
    subst (λ c. Under f c (run step (step s i) is)) (or-cut cut (lost i) (any_lost is))
      (run-Inner (step s i) is f (cut || lost i) ns (step_inner s i f cut n l u))

step_end :
    (s : Capture) (i : Inputs) (f : Fields) (cut tx : Bool)
    → first_beat i (tap_of i) ≡ false
    → last_beat i (tap_of i) ≡ true
    → Under f cut s
    → (header_valid i (tap_of i) s ≡ true)
      × (full_header tx s i ≡ header_words tx f (cut || lost i))
unfolding header_valid full_header use_fields final_truncated payload_write_failed payload_valid
    lost last_beat any_beat first_beat
step_end s i f cut tx n l u = ground arith

-- What the host's parser makes of a header: the fields, each cut to its width in the layout.
pub record Carries (tx : Bool) (f : Fields) (cut : Bool) (h : Header) : Type 0 where
  pub payload_length : h.payload_length ≡ (if f.has_payload then f.len % 2 ^ 10 else 0)
  pub tlp_type : h.tlp_type ≡ f.tlp_type % 2 ^ 4
  pub direction : h.direction ≡ b2n tx
  pub truncated : h.truncated ≡ cut
  pub timestamp : h.timestamp ≡ f.timestamp % 2 ^ 64
  pub req_id : h.req_id ≡ f.req_id % 2 ^ 16
  pub tag : h.tag ≡ f.tag % 2 ^ 8
  pub first_be : h.first_be ≡ f.first_be % 2 ^ 4
  pub last_be : h.last_be ≡ f.last_be % 2 ^ 4
  pub address : h.address ≡ f.adr % 2 ^ 64
  pub we : h.we ≡ f.we
  pub attr : h.attr ≡ f.attr % 2 ^ 2
  pub at : h.at ≡ f.at % 2 ^ 2
  pub cmp_id : h.cmp_id ≡ f.cmp_id % 2 ^ 16
  pub byte_count : h.byte_count ≡ f.byte_count % 2 ^ 12

abbrev pub parsed : ℕ × ℕ × ℕ × ℕ → Header
parsed (h0, h1, h2, h3) = header_of h0 h1 h2 h3

words-Carries :
    (tx : Bool) (f : Fields) (cut : Bool) → Carries tx f cut (parsed (header_words tx f cut))
unfolding header_words header_of build_header_word0 build_header_word1 build_header_word2
    build_header_word3_rx build_header_word3_tx
words-Carries true f cut = record {
  payload_length = ground arith;
  tlp_type = ground arith;
  direction = ground arith;
  truncated = ground arith;
  timestamp = ground arith;
  req_id = ground arith;
  tag = ground arith;
  first_be = ground arith;
  last_be = ground arith;
  address = refl;
  we = ground arith;
  attr = ground arith;
  at = ground arith;
  cmp_id = ground arith;
  byte_count = ground arith;
}
words-Carries false f cut = record {
  payload_length = ground arith;
  tlp_type = ground arith;
  direction = ground arith;
  truncated = ground arith;
  timestamp = ground arith;
  req_id = ground arith;
  tag = ground arith;
  first_be = ground arith;
  last_be = ground arith;
  address = refl;
  we = ground arith;
  attr = ground arith;
  at = ground arith;
  cmp_id = ground arith;
  byte_count = ground arith;
}

-- A packet of two or more beats that comes to an engine that is not dropping, and on whose first beat the
-- header FIFO has room, gives a header on its last beat, whatever idle cycles and stalled beats are
-- between them. Parsed by the host it has the direction of the engine and the common fields of the packet's
-- first beat, each cut to its width in the layout: length, or 0 without payload, type, timestamp,
-- requester, tag, byte enables, address, write flag, attributes, address type, completer and byte count;
-- and its `truncated` flag is set exactly if some beat with payload found the payload FIFO full.
pub packet-header :
    (tx : Bool) (s : Capture) (start : Inputs) (middle : List Inputs) (end : Inputs)
    → Captures s start middle end
    → let cut = (lost start || any_lost middle) || lost end in
      let words = full_header tx (run step s (start ∷ middle)) end in
      (header_valid end (tap_of end) (run step s (start ∷ middle)) ≡ true)
      × (words ≡ header_words tx (tap_of start).fields cut)
      × Carries tx (tap_of start).fields cut (parsed words)
packet-header tx s start middle end p =
    let cut = (lost start || any_lost middle) || lost end in
    let (valid, same) =
      step_end (run step s (start ∷ middle)) end (tap_of start).fields
        (lost start || any_lost middle) tx p.continues p.ends
        (rw (run-cons step s start middle) (
          run-Inner (step s start) middle (tap_of start).fields (lost start) p.inner
            (step_start s start p.idle p.starts p.goes_on p.room))) in
    (
      valid,
      same,
      subst (λ ws. Carries tx (tap_of start).fields cut (parsed ws)) (sym same)
          (words-Carries tx (tap_of start).fields cut),
    )
