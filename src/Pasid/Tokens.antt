-- ===== src/Pasid/Tokens.antt =====
-- The packets to the PHY, DWORD by DWORD.
use bsa_pcie_exerciser.Prelude.{
  ℕ, ◌%◌, ◌^◌, ◌≡◌, Bool, true, false, ◌&&◌, ◌||◌, not, ◌==◌, if◌then◌else◌, slice, List, [], ◌∷◌,
  ◌++◌,
}
use bsa_pcie_exerciser.Pasid.{
  Beat, Inputs, Output, Injector, step, sink_ready, source, prefix_dword,
}

-- A stream as the DWORDs that its byte enables mark as valid, between the marks of its packets.
pub data Token : Type 0 where
  start : Token
  dword : ℕ → ℕ → Token
  stop : Token

unfoldable pub one : ℕ → ℕ → List Token
one d be = if be == 0 then [] else dword d be ∷ []

-- The two DWORDs of a beat, the low one first.
unfoldable pub words : ℕ → ℕ → List Token
unfolding one
words dat be = one (slice dat 0 32) (slice be 0 4) ++ one (slice dat 32 32) (slice be 4 4)

unfoldable pub mark : Bool → Token → List Token
mark b t = if b then t ∷ [] else []

unfoldable pub tokens : Output → List Token
unfolding words mark
tokens o = mark o.first start ++ (words o.dat o.be ++ mark o.last stop)

-- The stream that leaves on a run.
unfoldable pub sent : Injector → List Inputs → List Token
sent s [] = []
sent s (i ∷ is) =
    (if (source s i).valid && i.source_ready then tokens (source s i) else []) ++ sent (step s i) is

-- The beats that are taken in on a run.
unfoldable pub fed : Injector → List Inputs → List Beat
fed s [] = []
fed s (i ∷ is) = (if i.sink_valid && sink_ready s i then i.sink ∷ [] else []) ++ fed (step s i) is

-- What the injector owes for a beat: between packets it waits for a first beat, and puts the PASID
-- prefix of that beat, if it carries one, in front of its DWORDs.
unfoldable pub wanted_of : Bool → Beat → List Token
unfolding words mark prefix_dword
wanted_of inside b =
    if inside
    then words b.dat b.be ++ mark b.last stop
    else if b.first
    then start
      ∷ (mark b.pasid_en (dword (prefix_dword b) 0xf) ++ (words b.dat b.be ++ mark b.last stop))
    else []

unfoldable pub after : Bool → Beat → Bool
after inside b = (inside || b.first) && not b.last

unfoldable pub wanted : Bool → List Beat → List Token
unfolding wanted_of after
wanted inside [] = []
wanted inside (b ∷ bs) = wanted_of inside b ++ wanted (after inside b) bs

-- Packets whose beats inside are not marked as first, and whose first DWORD is whole.
abbrev pub Framed : Bool → List Beat → Type 0
Framed inside [] = Unit {0}
Framed true (b ∷ bs) = (b.first ≡ false) × Framed (not b.last) bs
Framed false (b ∷ bs) = (b.be % 2 ^ 4 ≡ 0xf) × Framed (b.first && not b.last) bs

-- Whether a stream of beats ends inside a packet.
unfoldable pub ends : Bool → List Beat → Bool
ends q [] = q
ends q (b ∷ bs) = ends (after q b) bs
