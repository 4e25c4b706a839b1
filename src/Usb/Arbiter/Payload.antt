-- ===== src/Usb/Arbiter/Payload.antt =====
-- What the arbiter takes from the payload FIFOs.
use bsa_pcie_exerciser.Prelude.{
  ℕ, ◌+◌, ◌<◌, ◌≡◌, false, ◌&&◌, if◌then◌else◌, List, [], ◌∷◌, arith, run, bit, slice, b2n,
}
use bsa_pcie_exerciser.Usb.Arbiter.{
  State, idle, header, payload, pad, Arbiter, Inputs, step, reset, payload_ready, payload_valid,
}

-- The payload words that a packet still takes: those to come, and the padding word of an odd one.
owed_in : State → Arbiter → ℕ
owed_in idle s = 0
owed_in header s = s.payload_length_dw + b2n (bit s.payload_length_dw 0)
owed_in payload s = s.payload_count + b2n s.payload_odd
owed_in pad s = 1

unfoldable pub owed : Arbiter → ℕ
unfolding owed_in
owed s = owed_in s.state s

-- The words that a run takes from a payload FIFO.
unfoldable pub taken : Arbiter → List Inputs → ℕ
taken s [] = 0
taken s (i ∷ is) = b2n (payload_valid s i && payload_ready s i) + taken (step s i) is

-- A length field in 32-bit words, rounded up to whole 64-bit entries.
abbrev pub rounded : ℕ → ℕ
rounded w = slice w 0 10 + b2n (bit (slice w 0 10) 0)

accepts : State → Inputs → ℕ
accepts idle i =
    if i.rx_header_valid
    then rounded i.rx_header_data
    else if i.tx_header_valid
    then rounded i.tx_header_data
    else 0
accepts header i = 0
accepts payload i = 0
accepts pad i = 0

-- What the length fields of the packets that a run begins ask for, inbound ones first.
unfoldable pub asked : Arbiter → List Inputs → ℕ
unfolding accepts
asked s [] = 0
asked s (i ∷ is) = accepts s.state i + asked (step s i) is

record Inv (s : Arbiter) : Type 0 where
  odd_header : s.state ≡ header → s.payload_odd ≡ bit s.payload_length_dw 0
  header_left : s.state ≡ header → 0 < s.header_count
  even : (s.state ≡ header) → (s.payload_length_dw ≡ 0) → s.payload_odd ≡ false
  words_left : s.state ≡ payload → 0 < s.payload_count

step-Inv : (s : Arbiter) (i : Inputs) → Inv s → Inv (step s i)
unfolding step
step-Inv s i v = ground arith

step_owes :
    (s : Arbiter) (i : Inputs)
    → Inv s
    → b2n (payload_valid s i && payload_ready s i) + owed (step s i) ≡ owed s + accepts s.state i
unfolding step owed payload_ready payload_valid accepts
step_owes s i v = ground arith

run_owes :
    (s : Arbiter) (is : List Inputs)
    → Inv s
    → taken s is + owed (run step s is) ≡ owed s + asked s is
unfolding run taken asked
run_owes s [] v = omega arith
run_owes s (i ∷ is) v = omega (arith, step_owes s i v, run_owes (step s i) is (step-Inv s i v))

-- On a run from reset the words that the arbiter takes from the payload FIFOs, and those that the
-- packet under way still takes, are as many as the length fields of all packets begun ask for, each
-- rounded up to a whole number of 64-bit entries.
pub run-takes : (is : List Inputs) → taken reset is + owed (run step reset is) ≡ asked reset is
unfolding owed
run-takes is = omega (arith, run_owes reset is (ground arith))
