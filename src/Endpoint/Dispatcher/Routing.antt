-- ===== src/Endpoint/Dispatcher/Routing.antt =====
-- Which BAR a packet reaches.
use bsa_pcie_exerciser.Prelude.{
  ℕ, ◌≡◌, ◌∙◌, refl, sym, ap, Bool, true, false, ◌&&◌, ◌==◌, if◌then◌else◌, List, [], ◌∷◌, ◌++◌,
  arith, Bool-cases, ==_iff, inl, inr, zero, suc, ◌^◌, ◌||◌, not, ltb,
}
use bsa_pcie_exerciser.Endpoint.{Beat, Request}
use bsa_pcie_exerciser.Endpoint.Dispatcher.{
  Dispatcher, Inputs, reset, bar_of, bar_num, bar_active, sink_valid, sink, source_ready, step,
}

-- The beats that the depacketizer hands over.
unfoldable pub accepted : Dispatcher → List Inputs → List (Beat Request)
accepted s [] = []
accepted s (i ∷ is) =
    (if i.source_valid && source_ready s i then i.source ∷ [] else []) ++ accepted (step s i) is

-- The beats that the handler of a BAR takes.
unfoldable pub received : ℕ → Dispatcher → List Inputs → List (Beat Request)
received bar s [] = []
received bar s (i ∷ is) =
    (if sink_valid s i bar && i.sink_ready bar then sink i ∷ [] else [])
    ++ received bar (step s i) is

-- A packet: its first beat, the beats in between, and its last beat if it has more than one.
pub data Packet : Type 0 where
  short : Request → Packet
  long : Request → List Request → Request → Packet

unfoldable pub tail_of : List Request → Request → List (Beat Request)
tail_of [] z = record { first = false; last = true; body = z } ∷ []
tail_of (r ∷ rs) z = record { first = false; last = false; body = r } ∷ tail_of rs z

unfoldable pub beats : Packet → List (Beat Request)
unfolding tail_of
beats (short r) = record { first = true; last = true; body = r } ∷ []
beats (long r rs z) = record { first = true; last = false; body = r } ∷ tail_of rs z

unfoldable pub all_beats : List Packet → List (Beat Request)
unfolding beats
all_beats [] = []
all_beats (p ∷ ps) = beats p ++ all_beats ps

-- The vector with only the bit of a BAR, and a vector that is not one of these.
unfoldable pub hits : ℕ → ℕ → Bool
hits bar hit = ltb bar 6 && hit == 2 ^ bar

unfoldable pub hits_none : ℕ → Bool
unfolding hits
hits_none hit =
    not (hits 0 hit || hits 1 hit || hits 2 hit || hits 3 hit || hits 4 hit || hits 5 hit)

-- The hit vectors that lead to a BAR.
unfoldable pub leads_to : ℕ → ℕ → Bool
unfolding hits hits_none
leads_to bar hit = hits bar hit || (bar == 0 && hits_none hit)

-- The hit vector of a packet is that of its first beat.
unfoldable pub hit_of : Packet → ℕ
hit_of (short r) = r.bar_hit
hit_of (long r rs z) = r.bar_hit

unfoldable pub packets_to : ℕ → List Packet → List Packet
unfolding leads_to hit_of
packets_to bar [] = []
packets_to bar (p ∷ ps) =
    let rest = packets_to bar ps in if leads_to bar (hit_of p) then p ∷ rest else rest

leads_to-bar_of : (bar hit : ℕ) → leads_to bar hit ≡ (bar == bar_of hit)
unfolding leads_to hits hits_none bar_of
leads_to-bar_of zero hit = ground arith
leads_to-bar_of (suc zero) hit = ground arith
leads_to-bar_of (suc (suc zero)) hit = ground arith
leads_to-bar_of (suc (suc (suc zero))) hit = ground arith
leads_to-bar_of (suc (suc (suc (suc zero)))) hit = ground arith
leads_to-bar_of (suc (suc (suc (suc (suc zero))))) hit = ground arith
leads_to-bar_of (suc (suc (suc (suc (suc (suc n)))))) hit = ground arith

-- Beat by beat: inside a packet the BAR of its first beat, between packets that of the beat.
unfoldable owed : ℕ → Bool → ℕ → List (Beat Request) → List (Beat Request)
owed bar inside hit [] = []
owed bar inside hit (b ∷ bs) =
    let now = if inside then hit else b.body.bar_hit in
    (if bar == bar_of now then b ∷ [] else [])
    ++ owed bar (if b.last then false else if b.first then true else inside)
        (if b.first then b.body.bar_hit else hit) bs

at-target :
    (bar now : ℕ) (valid : Bool) (ready : ℕ → Bool)
    → (bar == now && valid && ready bar) ≡ (bar == now && valid && ready now)
at-target bar now valid ready = elim (Bool-cases (bar == now)) [
  | inl same ↦ ap (λ k. bar == now && valid && ready k) ((==_iff bar now).0 same)
  | inr other ↦ rw other refl
]

-- What a handler takes in a cycle.
taken : ℕ → Dispatcher → Inputs → List (Beat Request)
taken bar s i = if sink_valid s i bar && i.sink_ready bar then sink i ∷ [] else []

handed : Dispatcher → Inputs → List (Beat Request)
handed s i = if i.source_valid && source_ready s i then i.source ∷ [] else []

taken-handed :
    (bar : ℕ) (s : Dispatcher) (i : Inputs)
    → taken bar s i
      ≡ (if bar == bar_num s i && i.source_valid && source_ready s i then i.source ∷ [] else [])
unfolding taken sink_valid sink source_ready
taken-handed bar s i =
    ap (λ q. if q then i.source ∷ [] else [])
      (at-target bar (bar_num s i) i.source_valid i.sink_ready)

owed-cycle :
    (bar : ℕ) (s : Dispatcher) (i : Inputs) (rest : List (Beat Request))
    → owed bar s.in_packet s.bar_selected (handed s i ++ rest)
      ≡ taken bar s i ++ owed bar (step s i).in_packet (step s i).bar_selected rest
unfolding owed step handed source_ready bar_num bar_active
owed-cycle bar s i rest = rw (taken-handed bar s i) (ground arith)

received-owed :
    (bar : ℕ) (s : Dispatcher) (is : List Inputs)
    → received bar s is ≡ owed bar s.in_packet s.bar_selected (accepted s is)
unfolding received accepted taken handed
received-owed bar s [] = unfold owed in refl
received-owed bar s (i ∷ is) =
    ap (λ l. taken bar s i ++ l) (received-owed bar (step s i) is)
    ∙ sym (owed-cycle bar s i (accepted (step s i) is))

owed-tail :
    (bar : ℕ) (hit : ℕ) (rs : List Request) (z : Request) (bs : List (Beat Request))
    → owed bar true hit (tail_of rs z ++ bs)
      ≡ (if bar == bar_of hit then tail_of rs z else []) ++ owed bar false hit bs
unfolding owed tail_of
owed-tail bar hit [] z bs = ground arith
owed-tail bar hit (r ∷ rs) z bs = ground (arith, owed-tail bar hit rs z bs)

owed-irrelevant :
    (bar : ℕ) (a b : ℕ) (ps : List Packet)
    → owed bar false a (all_beats ps) ≡ owed bar false b (all_beats ps)
unfolding owed all_beats beats
owed-irrelevant bar a b [] = refl
owed-irrelevant bar a b (short r ∷ ps) = refl
owed-irrelevant bar a b (long r rs z ∷ ps) = refl

owed-packets :
    (bar hit : ℕ) (ps : List Packet)
    → owed bar false hit (all_beats ps) ≡ all_beats (packets_to bar ps)
unfolding owed all_beats beats packets_to hit_of
owed-packets bar hit [] = refl
owed-packets bar hit (short r ∷ ps) =
    ground (arith, leads_to-bar_of bar r.bar_hit, owed-packets bar r.bar_hit ps)
owed-packets bar hit (long r rs z ∷ ps) = ground (
  arith,
  leads_to-bar_of bar r.bar_hit,
  owed-packets bar r.bar_hit ps,
  owed-tail bar r.bar_hit rs z (all_beats ps),
)

-- When the beats that the depacketizer hands over are whole packets, each BAR's handler takes, whole
-- and in order, exactly the packets that lead to its BAR, whatever the handlers stall and whatever hit
-- vector the later beats of a packet carry: those whose first beat has the hit vector 2 ^ bar, for the
-- BARs below 6, and for BAR 0 also those whose hit vector is none of these six.
pub received-packets :
    (bar : ℕ) (is : List Inputs) (ps : List Packet)
    → accepted reset is ≡ all_beats ps
    → received bar reset is ≡ all_beats (packets_to bar ps)
received-packets bar is ps e =
    received-owed bar reset is ∙ (ap (owed bar false 0) e ∙ owed-packets bar 0 ps)
