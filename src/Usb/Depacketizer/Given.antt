-- ===== src/Usb/Depacketizer/Given.antt =====
-- The beats that the depacketizer gives to the crossbar.
use bsa_pcie_exerciser.Prelude.{
  ℕ, ◌+◌, ◌/◌, ◌%◌, ◌^◌, ◌≤◌, ◌≡◌, ◌≢◌, ◌∙◌, refl, ap, true, false, ◌&&◌, ◌==◌, if◌then◌else◌, List,
  [], ◌∷◌, ◌++◌, arith, run, run-inv,
}
use bsa_pcie_exerciser.Usb.Streams.{Pack, WaitTimer}
use bsa_pcie_exerciser.Usb.Packetizer.{Beat, preamble}
use bsa_pcie_exerciser.Usb.Depacketizer.{
  State, idle, receive_header, copy, Depacketizer, Inputs, reset, ready, valid_in, beat_of, cycle,
}

-- What the words that were taken so far ask for next.
pub data Mode : Type 0 where
  search dst_next : Mode
  length_next : ℕ → Mode
  copying : ℕ → ℕ → ℕ → Mode

unfoldable pub mode_next : Mode → ℕ → Mode
mode_next search w = if w == preamble then dst_next else search
mode_next dst_next w = length_next w
mode_next (length_next d) w = copying (d % 2 ^ 8) (w % 2 ^ 32) 0
mode_next (copying d l c) w = if c + 1 == l / 4 then search else copying d l ((c + 1) % 2 ^ 32)

unfoldable pub passed_on : Mode → ℕ → List Beat
passed_on search w = []
passed_on dst_next w = []
passed_on (length_next d) w = []
passed_on (copying d l c) w = record { dst = d; length = l; word = w; last = c + 1 == l / 4 } ∷ []

-- The beats in a stream of words: behind each preamble a channel, a length in bytes and as many
-- words as the length says.
unfoldable pub unframe : Mode → List ℕ → List Beat
unfolding mode_next passed_on
unframe m [] = []
unframe m (w ∷ ws) = passed_on m w ++ unframe (mode_next m w) ws

module _ (pack : Pack 2) (wait_timer : WaitTimer) where
  open pack use {Packing, count, chunk}
  open wait_timer use {Timing, done}

  unfoldable pub taken : Depacketizer Packing Timing → List Inputs → List ℕ
  taken s [] = []
  taken s (i ∷ is) =
      (if i.valid && ready pack wait_timer s i then i.word ∷ [] else [])
      ++ taken (cycle pack wait_timer s i) is

  unfoldable pub given : Depacketizer Packing Timing → List Inputs → List Beat
  given s [] = []
  given s (i ∷ is) =
      (if valid_in s.state i && i.source_ready then beat_of pack wait_timer s i ∷ [] else [])
      ++ given (cycle pack wait_timer s i) is

  -- The timer does not elapse inside a packet.
  abbrev pub InTime : Depacketizer Packing Timing → List Inputs → Type 0
  InTime s [] = Unit {0}
  InTime s (i ∷ is) =
      (s.state ≢ idle → done s.timer ≡ false) × InTime (cycle pack wait_timer s i) is

  header_mode : ℕ → Packing → Mode
  header_mode n p =
      if n == 0
      then dst_next
      else if n == 1
      then length_next (chunk p 0)
      else copying (chunk p 0 % 2 ^ 8) (chunk p 1 % 2 ^ 32) 0

  mode_in : State → Packing → ℕ → Mode
  unfolding header_mode
  mode_in idle p cnt = search
  mode_in receive_header p cnt = header_mode (count p) p
  mode_in copy p cnt = copying (chunk p 0 % 2 ^ 8) (chunk p 1 % 2 ^ 32) cnt

  unfoldable pub mode_of : Depacketizer Packing Timing → Mode
  unfolding mode_in
  mode_of s = mode_in s.state s.header_pack s.cnt

  pub record Inv (s : Depacketizer Packing Timing) : Type 0 where
    pub room : count s.header_pack ≤ 2
    pub at_rest : s.state ≡ idle → count s.header_pack ≢ 1
    pub counted : s.state ≡ receive_header → s.cnt ≡ 0
    pub full : s.state ≡ copy → count s.header_pack ≡ 2

  cycle-Inv_in :
      (st : State) (p : Packing) (t : Timing) (n : ℕ) (i : Inputs)
      → let s : Depacketizer Packing Timing = record {
        state = st;
        header_pack = p;
        timer = t;
        cnt = n;
      } in
        Inv s → Inv (cycle pack wait_timer s i)
  unfolding cycle
  cycle-Inv_in idle p t n i v =
      ground
        (arith, pack.count_reset p false 0 true, pack.count_waits p 0 true, pack.count_released p 0)
  cycle-Inv_in receive_header p t n i v = ground (
    arith,
    pack.source_valid_lem p,
    pack.count_reset p i.valid i.word false,
    pack.count_taken p i.word false,
    pack.count_waits p i.word false,
    pack.count_held p i.valid i.word,
  )
  cycle-Inv_in copy p t n i v =
      ground (arith, pack.count_reset p false 0 false, pack.count_held p false 0)

  cycle-Inv :
      (s : Depacketizer Packing Timing) (i : Inputs) → Inv s → Inv (cycle pack wait_timer s i)
  cycle-Inv s i v = cycle-Inv_in s.state s.header_pack s.timer s.cnt i v

  cycle_beats :
      (st : State) (p : Packing) (t : Timing) (n : ℕ) (i : Inputs) (ws : List ℕ)
      → let s : Depacketizer Packing Timing = record {
        state = st;
        header_pack = p;
        timer = t;
        cnt = n;
      } in
        Inv s
        → (st ≢ idle → done t ≡ false)
        → (if valid_in st i && i.source_ready then beat_of pack wait_timer s i ∷ [] else [])
            ++ unframe (mode_of (cycle pack wait_timer s i)) ws
          ≡ unframe
              (mode_of s)
              ((if i.valid && ready pack wait_timer s i then i.word ∷ [] else []) ++ ws)
  unfolding cycle unframe mode_of ready beat_of valid_in
  cycle_beats idle p t n i ws v e = ground (
    arith,
    v.at_rest refl,
    pack.count_reset p false 0 true,
    pack.count_waits p 0 true,
    pack.count_released p 0,
  )
  cycle_beats receive_header p t n i ws v e = ground (
    arith,
    e (λ q. cc),
    v.counted refl,
    pack.source_valid_lem p,
    pack.count_taken p i.word false,
    pack.chunk_taken p i.word false,
    pack.chunk_kept p i.word false 0,
    pack.count_waits p i.word false,
    pack.chunk_waits p i.word false 0,
    pack.count_held p i.valid i.word,
    pack.chunk_held p i.valid i.word 0,
    pack.chunk_held p i.valid i.word 1,
  )
  cycle_beats copy p t n i ws v e =
      ground (arith, e (λ q. cc), pack.chunk_held p false 0 0, pack.chunk_held p false 0 1)

  -- Also behind a packet that ran out of time.
  run-Inv : (is : List Inputs) → Inv (run (cycle pack wait_timer) (reset pack wait_timer) is)
  run-Inv is = run-inv (cycle pack wait_timer) Inv cycle-Inv (reset pack wait_timer) is (record {
    room = omega (arith, pack.count_start);
    at_rest = λ e n. omega (arith, pack.count_start, n);
    counted = λ e. refl;
    full = λ e. cc;
  })

  given_taken :
      (s : Depacketizer Packing Timing) (is : List Inputs)
      → Inv s
      → InTime s is
      → given s is ≡ unframe (mode_of s) (taken s is)
  unfolding given taken
  given_taken s [] v e = unfold unframe in refl
  given_taken s (i ∷ is) v e =
      ap
        (λ bs.
          (if valid_in s.state i && i.source_ready then beat_of pack wait_timer s i ∷ [] else [])
          ++ bs)
        (given_taken (cycle pack wait_timer s i) is (cycle-Inv s i v) e.1)
      ∙ cycle_beats s.state s.header_pack s.timer s.cnt i (taken (cycle pack wait_timer s i) is) v
          e.0

  -- After any run from reset that leaves the depacketizer at rest, and as long as the timer does not
  -- elapse inside a packet: whatever the pauses of the PHY and the stalls of the crossbar, the beats
  -- given are those in the words taken, found by the preamble and counted by the length.
  pub given-unframe :
      (before is : List Inputs)
      → let s = run (cycle pack wait_timer) (reset pack wait_timer) before in
        s.state ≡ idle → InTime s is → given s is ≡ unframe search (taken s is)
  given-unframe before is e h =
      let s = run (cycle pack wait_timer) (reset pack wait_timer) before in
      given_taken s is (run-Inv before) h
      ∙ unfold mode_of in ap (λ st. unframe (mode_in st s.header_pack s.cnt) (taken s is)) e
