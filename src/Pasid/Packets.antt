-- ===== src/Pasid/Packets.antt =====
-- The packets that leave the injector are the packets that came in.
use bsa_pcie_exerciser.Prelude.{
  ◌%◌, ◌^◌, ◌<◌, ◌≡◌, ◌⊎◌, ◌∙◌, refl, sym, ap, subst, Bool, true, false, ◌&&◌, ◌||◌, not,
  if◌then◌else◌, List, [], ◌∷◌, ◌++◌, arith, run, run-append, Bool-cases, inl, inr,
}
use mathlib.Core.List.{append-nil, append_assoc}
use bsa_pcie_exerciser.Pasid.{
  State, idle, decide, passthrough, shift, flush, Beat, Inputs, Injector, reset, step, sink_ready,
  source, prefix_dword,
}
use bsa_pcie_exerciser.Pasid.Tokens.{
  Token, start, dword, stop, one, words, mark, tokens, sent, fed, wanted_of, after, wanted, Framed,
  ends,
}

record Inv (s : Injector) : Type 0 where
  prefix : s.captured_prefix < 2 ^ 32
  dword_low : s.buffered_dword < 2 ^ 32
  be_low : s.buffered_be < 2 ^ 4
  whole : s.state ≡ decide → s.buffered_first_be % 2 ^ 4 ≡ 0xf
  held_valid : (s.state ≡ shift) ⊎ (s.state ≡ flush) → s.buffered_valid ≡ true

inside_of : State → Injector → Bool
inside_of idle s = false
inside_of decide s = not s.buffered_first_last
inside_of passthrough s = true
inside_of shift s = true
inside_of flush s = false

-- What a state still has to send.
held_in : State → Injector → List Token
held_in idle s = []
held_in decide s =
    start
    ∷ (mark s.captured_pasid_en (dword s.captured_prefix 0xf)
        ++ (words s.buffered_first_dat s.buffered_first_be ++ mark s.buffered_first_last stop))
held_in passthrough s = []
held_in shift s = one s.buffered_dword s.buffered_be
held_in flush s = one s.buffered_dword s.buffered_be ++ (stop ∷ [])

unfoldable pub held : Injector → List Token
unfolding held_in
held s = held_in s.state s

inside : Injector → Bool
unfolding inside_of
inside s = inside_of s.state s

-- A beat that may be taken in the state `s`.
record Fits (s : Injector) (b : Beat) : Type 0 where
  unmarked : inside s ≡ true → b.first ≡ false
  whole : inside s ≡ false → b.be % 2 ^ 4 ≡ 0xf

step_quiet :
    (s : Injector) (i : Inputs)
    → Inv s
    → (i.sink_valid && sink_ready s i) ≡ false
    → Inv (step s i) × (inside (step s i) ≡ inside s)
unfolding step sink_ready inside
step_quiet s i v h = ground arith

step_fed :
    (s : Injector) (i : Inputs)
    → Inv s
    → Fits s i.sink
    → (i.sink_valid && sink_ready s i) ≡ true
    → Inv (step s i) × (inside (step s i) ≡ after (inside s) i.sink)
unfolding step sink_ready inside after prefix_dword
step_fed s i v f h = ground arith

out_of : Injector → Inputs → List Token
out_of s i = if (source s i).valid && i.source_ready then tokens (source s i) else []

tokens_quiet :
    (s : Injector) (i : Inputs)
    → Inv s
    → (i.sink_valid && sink_ready s i) ≡ false
    → out_of s i ++ held (step s i) ≡ held s
unfolding step sink_ready out_of source tokens held words one mark
tokens_quiet s i v h = ground arith

tokens_fed :
    (s : Injector) (i : Inputs)
    → Inv s
    → Fits s i.sink
    → (i.sink_valid && sink_ready s i) ≡ true
    → out_of s i ++ held (step s i) ≡ held s ++ wanted_of (inside s) i.sink
unfolding step sink_ready out_of source tokens held words one mark wanted_of inside prefix_dword
tokens_fed s i v f h = ground arith

Framed-Fits :
    (s : Injector) (b : Beat) (bs : List Beat)
    → Framed (inside s) (b ∷ bs)
    → Fits s b × Framed (after (inside s) b) bs
unfolding after
Framed-Fits s b bs f = split (inside s) refl f
  where
    split :
        (q : Bool)
        → inside s ≡ q
        → Framed q (b ∷ bs)
        → Fits s b × Framed ((q || b.first) && not b.last) bs
    split true e (f, fs) = (record { unmarked = λ _. f; whole = λ n. cc }, fs)
    split false e (f, fs) = (record { unmarked = λ n. cc; whole = λ _. f }, fs)

fed-taken :
    (s : Injector) (i : Inputs) (is : List Inputs)
    → (i.sink_valid && sink_ready s i) ≡ true
    → fed s (i ∷ is) ≡ i.sink ∷ fed (step s i) is
unfolding fed
fed-taken s i is h = rw h refl

fed-quiet :
    (s : Injector) (i : Inputs) (is : List Inputs)
    → (i.sink_valid && sink_ready s i) ≡ false
    → fed s (i ∷ is) ≡ fed (step s i) is
unfolding fed
fed-quiet s i is h = rw h refl

-- One cycle in front of the rest of a run.
join :
    (o o' h h' hr w w' : List Token)
    → o' ++ hr ≡ h' ++ w'
    → o ++ h' ≡ h ++ w
    → (o ++ o') ++ hr ≡ h ++ (w ++ w')
join o o' h h' hr w w' rest cycle =
    append_assoc o o' hr
    ∙ (ap (λ l. o ++ l) rest
        ∙ (sym (append_assoc o h' w') ∙ (ap (λ l. l ++ w') cycle ∙ append_assoc h w w')))

sent-run :
    (s : Injector) (is : List Inputs)
    → Inv s
    → Framed (inside s) (fed s is)
    → sent s is ++ held (run step s is) ≡ held s ++ wanted (inside s) (fed s is)
unfolding run sent wanted out_of
sent-run s [] v f = unfold fed in sym (append-nil _)
sent-run s (i ∷ is) v f = elim (Bool-cases (i.sink_valid && sink_ready s i)) [
  | inl taken ↦
      let e = fed-taken s i is taken in
      let (fits, rest) = Framed-Fits s i.sink (fed (step s i) is) (subst (Framed (inside s)) e f) in
      let (v', after_it) = step_fed s i v fits taken in
      let later =
        sent-run (step s i) is v' (subst (λ b. Framed b (fed (step s i) is)) (sym after_it) rest) in
      join (out_of s i) (sent (step s i) is) (held s) (held (step s i)) _
        (wanted_of (inside s) i.sink) (wanted (after (inside s) i.sink) (fed (step s i) is))
        (later ∙ ap (λ b. held (step s i) ++ wanted b (fed (step s i) is)) after_it)
        (tokens_fed s i v fits taken)
      ∙ ap (λ l. held s ++ wanted (inside s) l) (sym e)
  | inr quiet ↦
      let e = fed-quiet s i is quiet in
      let (v', same) = step_quiet s i v quiet in
      let later =
        sent-run (step s i) is v'
          (subst (λ b. Framed b (fed (step s i) is)) (sym same) (subst (Framed (inside s)) e f)) in
      join (out_of s i) (sent (step s i) is) (held s) (held (step s i)) _ []
        (wanted (inside s) (fed (step s i) is))
        (later ∙ ap (λ b. held (step s i) ++ wanted b (fed (step s i) is)) same)
        (tokens_quiet s i v quiet ∙ sym (append-nil _))
      ∙ ap (λ l. held s ++ wanted (inside s) l) (sym e)
]

run_ends :
    (s : Injector) (is : List Inputs)
    → Inv s
    → Framed (inside s) (fed s is)
    → Inv (run step s is) × (inside (run step s is) ≡ ends (inside s) (fed s is))
unfolding run ends
run_ends s [] v f = (v, unfold fed in refl)
run_ends s (i ∷ is) v f = elim (Bool-cases (i.sink_valid && sink_ready s i)) [
  | inl taken ↦
      let e = fed-taken s i is taken in
      let (fits, rest) = Framed-Fits s i.sink (fed (step s i) is) (subst (Framed (inside s)) e f) in
      let (v', after_it) = step_fed s i v fits taken in
      let (v'', later) =
        run_ends (step s i) is v' (subst (λ b. Framed b (fed (step s i) is)) (sym after_it) rest) in
      (v'', later ∙ (ap (λ b. ends b (fed (step s i) is)) after_it ∙ ap (ends (inside s)) (sym e)))
  | inr quiet ↦
      let e = fed-quiet s i is quiet in
      let (v', same) = step_quiet s i v quiet in
      let (v'', later) =
        run_ends (step s i) is v'
          (subst (λ b. Framed b (fed (step s i) is)) (sym same) (subst (Framed (inside s)) e f)) in
      (v'', later ∙ (ap (λ b. ends b (fed (step s i) is)) same ∙ ap (ends (inside s)) (sym e)))
]

-- A cycle without a beat in which the PHY is ready.
pub record Drains (i : Inputs) : Type 0 where
  pub quiet : i.sink_valid ≡ false
  pub ready : i.source_ready ≡ true

drained :
    (s : Injector) (i j : Inputs)
    → Inv s
    → inside s ≡ false
    → Drains i
    → Drains j
    → (held (run step s (i ∷ j ∷ [])) ≡ []) × (fed s (i ∷ j ∷ []) ≡ [])
unfolding run step inside held fed
drained s i j v out p q = ground arith

fed-append :
    (s : Injector) (is js : List Inputs) → fed s (is ++ js) ≡ fed s is ++ fed (run step s is) js
unfolding fed run
fed-append s [] js = refl
fed-append s (i ∷ is) js =
    ap (λ l. (if i.sink_valid && sink_ready s i then i.sink ∷ [] else []) ++ l)
      (fed-append (step s i) is js)
    ∙ sym (append_assoc _ (fed (step s i) is) _)

-- However the packetizer pauses and the PHY stalls: when the beats that a run from reset takes in
-- end with a packet, and two cycles follow with no beat and a ready PHY, the injector has sent
-- exactly the DWORDs that it took in, packet by packet and in order, with the PASID prefix of a
-- packet in front of its header if its first beat asks for one. Inside a packet no beat is marked as
-- first, and the first DWORD of a packet is whole.
pub packets-sent :
    (is : List Inputs) (i j : Inputs)
    → Framed false (fed reset is)
    → ends false (fed reset is) ≡ false
    → Drains i
    → Drains j
    → sent reset (is ++ (i ∷ j ∷ [])) ≡ wanted false (fed reset is)
unfolding inside held
packets-sent is i j f e p q =
    let v : Inv reset = ground arith in
    let (v', at) = run_ends reset is v f in
    let (empty, none) = drained (run step reset is) i j v' (at ∙ e) p q in
    let same : fed reset (is ++ (i ∷ j ∷ [])) ≡ fed reset is =
      fed-append reset is (i ∷ j ∷ []) ∙ (ap (λ l. fed reset is ++ l) none ∙ append-nil _) in
    let all = sent-run reset (is ++ (i ∷ j ∷ [])) v (subst (Framed false) (sym same) f) in
    sym (append-nil _)
    ∙ (ap (λ h. sent reset (is ++ (i ∷ j ∷ [])) ++ h)
          (sym (ap held (run-append step reset is (i ∷ j ∷ [])) ∙ empty))
        ∙ (all ∙ ap (wanted false) same))
