-- ===== src/Endpoint/RawTx/Unbroken.antt =====
-- What the PHY takes from the two sources.
use bsa_pcie_exerciser.Prelude.{
  ◌≡◌, refl, Bool, true, false, ◌&&◌, ◌||◌, not, if◌then◌else◌, List, [], ◌∷◌, ◌++◌, arith,
}
use bsa_pcie_exerciser.Endpoint.{Beat}
use bsa_pcie_exerciser.Endpoint.RawTx.{
  Data, RawTx, Inputs, reset, grant_raw, phy_valid, phy, main_ready, raw_ready, step,
}

-- A beat with its source.
pub record Tagged : Type 0 where
  pub from_raw : Bool
  pub beat : Beat Data

-- The beats that the PHY takes.
unfoldable pub sent : RawTx → List Inputs → List Tagged
unfolding phy_valid phy
sent s [] = []
sent s (i ∷ is) =
    (if phy_valid s i && i.phy_ready
      then record { from_raw = grant_raw s i; beat = phy s i } ∷ []
      else [])
    ++ sent (step s i) is

-- The beats that leave the two sources.
unfoldable pub raw_taken : RawTx → List Inputs → List (Beat Data)
unfolding raw_ready
raw_taken s [] = []
raw_taken s (i ∷ is) =
    (if i.raw_valid && raw_ready s i then i.raw ∷ [] else []) ++ raw_taken (step s i) is

unfoldable pub main_taken : RawTx → List Inputs → List (Beat Data)
unfolding main_ready
main_taken s [] = []
main_taken s (i ∷ is) =
    (if i.main_valid && main_ready s i then i.main ∷ [] else []) ++ main_taken (step s i) is

unfoldable pub beats_of : Bool → List Tagged → List (Beat Data)
beats_of raw [] = []
beats_of raw (t ∷ ts) =
    let rest = beats_of raw ts in
    if raw && t.from_raw || not raw && not t.from_raw then t.beat ∷ rest else rest

-- No raw beat stands inside a packet of the packetizer.
unfoldable pub unbroken : Bool → List Tagged → Bool
unbroken inside [] = true
unbroken inside (t ∷ ts) =
    if t.from_raw
    then not inside && unbroken inside ts
    else unbroken ((inside || t.beat.first) && not t.beat.last) ts

sent-taken :
    (s : RawTx) (is : List Inputs)
    → (beats_of true (sent s is) ≡ raw_taken s is) × (beats_of false (sent s is) ≡ main_taken s is)
unfolding sent raw_taken main_taken beats_of
sent-taken s [] = (refl, refl)
sent-taken s (i ∷ is) = ground (arith, sent-taken (step s i) is)

sent-inside :
    (s : RawTx) (is : List Inputs) (inside : Bool)
    → (inside ≡ true → s.main_in_packet ≡ true)
    → unbroken inside (sent s is) ≡ true
unfolding sent unbroken step
sent-inside s [] inside h = refl
sent-inside s (i ∷ is) inside h = ground (
  arith,
  sent-inside (step s i) is inside,
  sent-inside (step s i) is ((inside || i.main.first) && not i.main.last),
)

-- On every run from reset the PHY takes of each source exactly the beats that leave it, in order,
-- and no beat of the raw source inside a packet of the packetizer.
pub sent-unbroken :
    (is : List Inputs)
    → (unbroken false (sent reset is) ≡ true)
      × (beats_of true (sent reset is) ≡ raw_taken reset is)
      × (beats_of false (sent reset is) ≡ main_taken reset is)
sent-unbroken is =
    let (of_raw, of_main) = sent-taken reset is in
    (sent-inside reset is false (λ h. ground arith), of_raw, of_main)

-- A raw packet is not protected: if a packet of the packetizer waits in a cycle in which the PHY
-- takes a raw beat, the PHY takes a beat of that packet next, although the raw packet goes on.
pub sent-splits_raw :
    (i j : Inputs)
    → i.raw_valid ≡ true
    → i.raw.last ≡ false
    → i.main_valid ≡ true
    → i.main.first ≡ true
    → i.main.last ≡ false
    → i.phy_ready ≡ true
    → j.raw_valid ≡ true
    → j.main_valid ≡ true
    → j.phy_ready ≡ true
    → sent reset (i ∷ j ∷ [])
      ≡ record { from_raw = true; beat = i.raw } ∷ (record { from_raw = false; beat = j.main } ∷ [])
unfolding sent step
sent-splits_raw i j a b c d e f g h k = ground arith
