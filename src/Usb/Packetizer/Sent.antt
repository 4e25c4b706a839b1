-- ===== src/Usb/Packetizer/Sent.antt =====
-- The words that the packetizer sends.
use bsa_pcie_exerciser.Prelude.{
  ℕ, zero, suc, ◌==◌, ◌≡◌, ◌≢◌, refl, ap, Bool, true, false, ◌&&◌, not, if◌then◌else◌, List, [],
  ◌∷◌, ◌++◌, ◌<◌, arith, run,
}
use bsa_pcie_exerciser.Usb.Streams.{Unpack, chunk_at}
use bsa_pcie_exerciser.Usb.Packetizer.{
  State, idle, insert_header, copy, Beat, header, preamble, Packetizer, Inputs, reset, source_valid,
  source_word, ready, cycle,
}

-- The wire form of the beats of packets: the header in front of a packet's first beat.
unfoldable pub frame : Bool → List Beat → List ℕ
frame first [] = []
frame first (b ∷ bs) = (if first then header b else []) ++ b.word ∷ frame b.last bs

chunk_header :
    (b : Beat) (k : ℕ)
    → k < 3
    → chunk_at (header b) k ≡ (if k == 0 then preamble else if k == 1 then b.dst else b.length)
unfolding chunk_at
chunk_header b zero h = refl
chunk_header b (suc zero) h = refl
chunk_header b (suc (suc zero)) h = refl
chunk_header b (suc (suc (suc k))) h = absurd (omega arith)

module _ (unpack : Unpack 3) where
  open unpack use {Unpacking, place}

  -- The words that the PHY takes.
  unfoldable pub sent : Packetizer Unpacking → List Inputs → List ℕ
  sent s [] = []
  sent s (i ∷ is) =
      (if source_valid unpack s i && i.source_ready then source_word unpack s i ∷ [] else [])
      ++ sent (cycle unpack s i) is

  -- The beats that the packetizer takes.
  unfoldable pub taken : Packetizer Unpacking → List Inputs → List Beat
  taken s [] = []
  taken s (i ∷ is) =
      (if i.valid && ready unpack s i then i.beat ∷ [] else []) ++ taken (cycle unpack s i) is

  abbrev pub Again : Beat → List Inputs → Type 0
  Again b [] = Unit {0}
  Again b (j ∷ is) = (j.valid ≡ true) × (j.beat ≡ b)

  -- A beat that is offered and not taken is offered again in the next cycle.
  abbrev pub Offers : Packetizer Unpacking → List Inputs → Type 0
  Offers s [] = Unit {0}
  Offers s (i ∷ is) =
      ((i.valid && not (ready unpack s i)) ≡ true → Again i.beat is) × Offers (cycle unpack s i) is

  -- The header words that are out while the first beat of the packet waits; `first` says whether
  -- that beat is still to come.
  begun_in : State → Bool → ℕ → Beat → List ℕ
  begun_in idle first k b = []
  begun_in insert_header first k b =
      if k == 0 then [] else if k == 1 then preamble ∷ [] else preamble ∷ b.dst ∷ []
  begun_in copy first k b = if first then header b else []

  record Inv (s : Packetizer Unpacking) (first : Bool) (b : Beat) (is : List Inputs) : Type 0 where
    at_rest : s.state ≢ insert_header → place s.header_unpack ≡ 0
    inside : place s.header_unpack < 3
    whole : s.state ≢ copy → first ≡ true
    again : s.state ≢ idle → first ≡ true → Again b is

  next_first : Packetizer Unpacking → Bool → Inputs → Bool
  next_first s first i = if i.valid && ready unpack s i then i.beat.last else first

  cycle_frames :
      (st : State) (u : Unpacking) (first : Bool) (b : Beat) (i : Inputs) (is : List Inputs)
      (rest : List ℕ) (later : List Beat)
      → let s : Packetizer Unpacking = record { state = st; header_unpack = u } in
        Inv s first b (i ∷ is)
        → begun_in
              (cycle unpack s i).state
              (next_first s first i)
              (place (cycle unpack s i).header_unpack)
              i.beat
            ++ rest
          ≡ frame (next_first s first i) later
        → begun_in st first (place u) b
            ++ ((if source_valid unpack s i && i.source_ready
                  then source_word unpack s i ∷ []
                  else [])
                ++ rest)
          ≡ frame first ((if i.valid && ready unpack s i then i.beat ∷ [] else []) ++ later)
  unfolding cycle source_valid source_word ready begun_in frame next_first
  cycle_frames idle u first b i is rest later v h = ground (arith, unpack.place_step u false false)
  cycle_frames copy u first b i is rest later v h =
      ground (arith, unpack.place_step u false false, v.again (ground arith))
  cycle_frames insert_header u first b i is rest later v h =
      let again = v.again (λ e. cc) (v.whole (λ e. cc)) in
      ground (
        arith,
        ap (λ x. x.dst) again.1,
        ap (λ x. x.length) again.1,
        v.whole (λ e. cc),
        chunk_header i.beat (place u) v.inside,
        unpack.place_step u true i.source_ready,
        unpack.word_lem u (header i.beat),
        unpack.sink_ready_lem u i.source_ready,
      )

  cycle-Inv :
      (s : Packetizer Unpacking) (first : Bool) (b : Beat) (i : Inputs) (is : List Inputs)
      → Inv s first b (i ∷ is)
      → Offers s (i ∷ is)
      → Inv (cycle unpack s i) (next_first s first i) i.beat is
  unfolding cycle next_first ready
  cycle-Inv s first b i is v o = ground (
    arith,
    unpack.place_step s.header_unpack true i.source_ready,
    unpack.place_step s.header_unpack false false,
    unpack.sink_ready_lem s.header_unpack i.source_ready,
  )

  sent_frames :
      (s : Packetizer Unpacking) (first : Bool) (b : Beat) (is : List Inputs)
      → Inv s first b is
      → Offers s is
      → (run (cycle unpack) s is).state ≡ idle
      → begun_in s.state first (place s.header_unpack) b ++ sent s is ≡ frame first (taken s is)
  unfolding run sent taken
  sent_frames s first b [] v o e = unfold begun_in frame in ground (arith, e)
  sent_frames s first b (i ∷ is) v o e =
      let ih =
        sent_frames (cycle unpack s i) (next_first s first i) i.beat is
          (cycle-Inv s first b i is v o) o.1 e in
      cycle_frames s.state s.header_unpack first b i is (sent (cycle unpack s i) is)
        (taken (cycle unpack s i) is) v ih

  -- When the source holds a beat that is offered until it is taken, and the run ends between two
  -- packets, the words that the PHY has taken are those of the beats that were taken, in order, with
  -- the preamble, the channel and the length of its first beat in front of each packet.
  pub sent-frames :
      (is : List Inputs)
      → Offers (reset unpack) is
      → (run (cycle unpack) (reset unpack) is).state ≡ idle
      → sent (reset unpack) is ≡ frame true (taken (reset unpack) is)
  unfolding begun_in
  sent-frames is o e =
      let none_yet : Beat = record { dst = 0; length = 0; word = 0; last = false } in
      let fresh : Inv (reset unpack) true none_yet is = record {
        at_rest = λ n. unpack.place_start;
        inside = omega (arith, unpack.place_start);
        whole = λ n. refl;
        again = λ n. absurd (n refl);
      } in
      sent_frames (reset unpack) true none_yet is fresh o e
