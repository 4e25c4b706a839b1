-- ===== src/Usb/Arbiter/Framing.antt =====
-- The packets on the output stream.
use bsa_pcie_exerciser.Prelude.{
  ℕ, ◌+◌, ◌*◌, ◌-◌, ◌/◌, ◌%◌, ◌^◌, ◌≤◌, ◌<◌, ◌≡◌, refl, Bool, true, false, ◌&&◌, not, ◌==◌,
  if◌then◌else◌, List, [], ◌∷◌, ◌++◌, arith, run, Option, none, some, Bool-cases, inl, inr,
}
use bsa_pcie_exerciser.Usb.Arbiter.{
  State, idle, header, payload, pad, Arbiter, Inputs, Output, step, output, reset,
}

-- A receiver between packets, or inside one with that many words to come and that length.
pub data Receiver : Type 0 where
  between : Receiver
  inside : ℕ → ℕ → Receiver

eqb : Bool → Bool → Bool
eqb true b = b
eqb false b = not b

-- What a receiver does with a word: it insists on `first` and `last` at the ends of a packet, on
-- a length that stays, and on as many words as the length says; `none` is a framing error.
unfoldable pub receive : Receiver → Output → Option Receiver
unfolding eqb
receive between o =
    if not o.first
    then none
    else if not (o.length % 4 == 0)
    then none
    else if not (eqb o.last (o.length / 4 == 1))
    then none
    else some (if o.last then between else inside (o.length / 4 - 1) o.length)
receive (inside n len) o =
    if o.first
    then none
    else if not (o.length == len)
    then none
    else if not (eqb o.last (n == 1))
    then none
    else some (if o.last then between else inside (n - 1) len)

-- The words that are transferred on a run.
unfoldable pub sent : Arbiter → List Inputs → List Output
sent s [] = []
sent s (i ∷ is) =
    (if (output s i).valid && i.source_ready then output s i ∷ [] else []) ++ sent (step s i) is

unfoldable pub receive_all : Receiver → List Output → Option Receiver
receive_all r [] = some r
receive_all r (o ∷ os) = elim (receive r o) [ none ↦ none | some r' ↦ receive_all r' os ]

-- The receiver that fits a state of the arbiter.
fit : State → Arbiter → Receiver
fit idle s = between
fit pad s = between
fit header s =
    if s.header_count == 8
    then between
    else inside (s.header_count + s.payload_length_dw) s.packet_length_bytes
fit payload s = inside s.payload_count s.packet_length_bytes

unfoldable pub receiver : Arbiter → Receiver
unfolding fit
receiver s = fit s.state s

pub record Inv (s : Arbiter) : Type 0 where
  pub count_low : s.state ≡ header → 0 < s.header_count
  pub count_high : s.state ≡ header → s.header_count ≤ 8
  pub dw : s.payload_length_dw < 2 ^ 10
  pub bytes : s.state ≡ header → s.packet_length_bytes ≡ (8 + s.payload_length_dw) * 4
  pub words : s.state ≡ payload → 0 < s.payload_count

reset-Inv : Inv reset
reset-Inv = ground arith

pub step-Inv : (s : Arbiter) (i : Inputs) → Inv s → Inv (step s i)
unfolding step
step-Inv s i v = ground arith

step_silent :
    (s : Arbiter) (i : Inputs)
    → Inv s
    → ((output s i).valid && i.source_ready) ≡ false
    → receiver (step s i) ≡ receiver s
unfolding step output receiver
step_silent s i v h = ground arith

step_sent :
    (s : Arbiter) (i : Inputs)
    → Inv s
    → ((output s i).valid && i.source_ready) ≡ true
    → receive (receiver s) (output s i) ≡ some (receiver (step s i))
unfolding step output receive receiver
step_sent s i v h = ground arith

run_receives :
    (s : Arbiter) (is : List Inputs)
    → Inv s
    → receive_all (receiver s) (sent s is) ≡ some (receiver (run step s is))
unfolding run sent receive_all
run_receives s [] v = refl
run_receives s (i ∷ is) v = elim (Bool-cases ((output s i).valid && i.source_ready)) [
  | inl out ↦
      rw (out, step_sent s i v out, receive_all) (run_receives (step s i) is (step-Inv s i v))
  | inr quiet ↦ rw (quiet, ← step_silent s i v quiet) (run_receives (step s i) is (step-Inv s i v))
]

-- Whatever the FIFOs hold and whenever they and the crossbar stall, the words that a run from reset
-- transfers are well framed: packets of one constant length field each, a multiple of 4 bytes, as
-- many words as that length, `first` on the first word and on no other, and `last` on the last word
-- and on no other.
pub run-framed :
    (is : List Inputs) → (r : Receiver) × (receive_all between (sent reset is) ≡ some r)
unfolding receiver
run-framed is = (receiver (run step reset is), run_receives reset is reset-Inv)
