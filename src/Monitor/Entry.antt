-- ===== src/Monitor/Entry.antt =====
-- What a capture says of the beat.
use bsa_pcie_exerciser.Prelude.{
  ℕ, ◌+◌, ◌*◌, ◌%◌, ◌^◌, ◌<◌, ◌≡◌, refl, ap, sym, ◌∙◌, Bool, true, false, not, ◌&&◌, ◌==◌,
  if◌then◌else◌, List, [], ◌∷◌, arith, length, run, bit, slice, b2n, passes, passes-at, ==_iff,
}
use bsa_pcie_exerciser.Monitor.{
  Monitor, Inputs, step, word0_of, capture_entry, cfg_addr, mem_addr, cap_we, cap_addr,
  bytes_in_beat, byte_en, size_onehot, track,
}

-- The flags and the size of the first word.
pub record Attributes (i : Inputs) (w : ℕ) : Type 0 where
  pub kind : bit w 0 ≡ (i.tap_cfg_valid && i.tap_cfg_type)
  pub read : bit w 1 ≡ not (cap_we i)
  pub config : bit w 2 ≡ i.tap_cfg_valid
  pub reserved : slice w 3 13 ≡ 0
  pub size : slice w 16 16 ≡ size_onehot (bytes_in_beat (byte_en i))

flags :
    (t r c : Bool) (z : ℕ)
    → z < 16
    → let w = b2n t + 2 * b2n r + 4 * b2n c + z * 2 ^ 16 in
      (bit w 0 ≡ t) × (bit w 1 ≡ r) × (bit w 2 ≡ c) × (slice w 3 13 ≡ 0) × (slice w 16 16 ≡ z)
flags t r c z h = ground arith

onehot-lt : (n : ℕ) → size_onehot n < 16
unfolding size_onehot
onehot-lt n = ground arith

attributes : (i : Inputs) → Attributes i (word0_of i)
unfolding word0_of
attributes i =
    let (a, b, c, d, e) =
      flags (i.tap_cfg_valid && i.tap_cfg_type) (not (cap_we i)) i.tap_cfg_valid
        (size_onehot (bytes_in_beat (byte_en i))) (onehot-lt (bytes_in_beat (byte_en i))) in
    record { kind = a; read = b; config = c; reserved = d; size = e }

-- The widths of the configuration tap.
pub record CfgWidths (i : Inputs) : Type 0 where
  pub bus : i.tap_cfg_bus_number < 2 ^ 8
  pub device : i.tap_cfg_device_no < 2 ^ 5
  pub func : i.tap_cfg_func < 2 ^ 3
  pub ext : i.tap_cfg_ext_reg < 2 ^ 4
  pub reg : i.tap_cfg_register_no < 2 ^ 6
  pub be : i.tap_cfg_first_be < 2 ^ 4
  pub dat : i.tap_cfg_dat < 2 ^ 64

-- The bytes that a configuration request enables, by the library of sizes of the format.
nibble_table :
    passes
      (λ be.
        slice (size_onehot (bytes_in_beat be)) 0 16
        == (if bytes_in_beat be == 3 then 0 else bytes_in_beat be))
      16
    ≡ true
unfolding passes size_onehot bytes_in_beat
nibble_table = refl

nibble_size :
    (be : ℕ)
    → be < 16
    → slice (size_onehot (bytes_in_beat be)) 0 16
      ≡ (if bytes_in_beat be == 3 then 0 else bytes_in_beat be)
nibble_size be h = (==_iff _ _).0 (passes-at 16 _ be nibble_table h)

onehot_slice : (n : ℕ) → slice (size_onehot n) 0 16 ≡ size_onehot n
onehot_slice n = omega (arith, onehot-lt n)

config_size : (i : Inputs) → i.tap_cfg_valid ≡ true → byte_en i ≡ i.tap_cfg_first_be
unfolding byte_en
config_size i v = ground arith

address_fields :
    (b d f x r : ℕ)
    → b < 2 ^ 8
    → d < 2 ^ 5
    → f < 2 ^ 3
    → x < 2 ^ 4
    → r < 2 ^ 6
    → let a = b * 2 ^ 20 + d * 2 ^ 15 + f * 2 ^ 12 + x * 2 ^ 8 + r * 2 ^ 2 in
      (slice (slice a 0 32) 2 6 ≡ r)
      × (slice (slice a 0 32) 8 4 ≡ x)
      × (slice (slice a 0 32) 12 3 ≡ f)
      × (slice (slice a 0 32) 15 5 ≡ d)
      × (slice (slice a 0 32) 20 8 ≡ b)
      × (slice a 32 32 ≡ 0)
address_fields b d f x r p q u v w = omega arith

config_address : (s : Monitor) (i : Inputs) → i.tap_cfg_valid ≡ true → cap_addr s i ≡ cfg_addr i
unfolding cap_addr
config_address s i v = ground arith

-- A configuration request, which has priority over a memory request of the same cycle, is
-- captured with its fields in their places of the address word: register, extended register,
-- function, device and bus; the upper address word is 0, and the two data words give the data
-- back. The attribute word has the request's type, direction and kind, and the number of enabled
-- bytes as its size, or 0 for three bytes, which no power of two encodes.
pub config_captured :
    (s : Monitor) (i : Inputs)
    → i.tap_cfg_valid ≡ true
    → CfgWidths i
    → let e = capture_entry s i in
      ((slice e.word1 2 6 ≡ i.tap_cfg_register_no)
        × (slice e.word1 8 4 ≡ i.tap_cfg_ext_reg)
        × (slice e.word1 12 3 ≡ i.tap_cfg_func)
        × (slice e.word1 15 5 ≡ i.tap_cfg_device_no)
        × (slice e.word1 20 8 ≡ i.tap_cfg_bus_number)
        × (e.word2 ≡ 0))
      × (e.word3 + e.word4 * 2 ^ 32 ≡ i.tap_cfg_dat)
      × ((bit e.word0 0 ≡ i.tap_cfg_type)
          × (bit e.word0 1 ≡ not i.tap_cfg_we)
          × (bit e.word0 2 ≡ true))
      × (slice e.word0 16 16
          ≡ (if bytes_in_beat i.tap_cfg_first_be == 3 then 0 else bytes_in_beat i.tap_cfg_first_be))
unfolding capture_entry
config_captured s i v w =
    let a = attributes i in
    (fields, ground (arith, w.dat, v), ground (arith, v, a.kind, a.read, a.config), sized)
  where
    fields :
        (slice (slice (cap_addr s i) 0 32) 2 6 ≡ i.tap_cfg_register_no)
        × (slice (slice (cap_addr s i) 0 32) 8 4 ≡ i.tap_cfg_ext_reg)
        × (slice (slice (cap_addr s i) 0 32) 12 3 ≡ i.tap_cfg_func)
        × (slice (slice (cap_addr s i) 0 32) 15 5 ≡ i.tap_cfg_device_no)
        × (slice (slice (cap_addr s i) 0 32) 20 8 ≡ i.tap_cfg_bus_number)
        × (slice (cap_addr s i) 32 32 ≡ 0)
    fields =
        rw (config_address s i v)
          (unfold cfg_addr in address_fields _ _ _ _ _ w.bus w.device w.func w.ext w.reg)

    sized :
        slice (word0_of i) 16 16
        ≡ (if bytes_in_beat i.tap_cfg_first_be == 3 then 0 else bytes_in_beat i.tap_cfg_first_be)
    sized =
        (attributes i).size
        ∙ (ap (λ be. size_onehot (bytes_in_beat be)) (config_size i v)
            ∙ (sym (onehot_slice (bytes_in_beat i.tap_cfg_first_be))
                ∙ nibble_size i.tap_cfg_first_be w.be))

-- The beats of a memory request behind the first, with nothing cleared.
abbrev pub Follows : List Inputs → Type 0
Follows [] = Unit {0}
Follows (i ∷ is) = (i.clear ≡ false) × (i.tap_valid ≡ true) × (i.tap_first ≡ false) × Follows is

module _ (depth : ℕ) where
  step_first :
      (s : Monitor) (i : Inputs)
      → i.clear ≡ false
      → i.tap_valid ≡ true
      → i.tap_first ≡ true
      → ((step depth s i).mem_base_addr ≡ i.tap_adr) × ((step depth s i).mem_beat_index ≡ 0)
  unfolding step track
  step_first s i c v f = ground arith

  step_next :
      (s : Monitor) (i : Inputs)
      → i.clear ≡ false
      → i.tap_valid ≡ true
      → i.tap_first ≡ false
      → ((step depth s i).mem_base_addr ≡ s.mem_base_addr)
        × ((step depth s i).mem_beat_index ≡ (s.mem_beat_index + 1) % 2 ^ 16)
  unfolding step track
  step_next s i c v f = ground arith

  run_next :
      (s : Monitor) (is : List Inputs)
      → Follows is
      → s.mem_beat_index + length is < 2 ^ 16
      → ((run (step depth) s is).mem_base_addr ≡ s.mem_base_addr)
        × ((run (step depth) s is).mem_beat_index ≡ s.mem_beat_index + length is)
  unfolding run
  run_next s [] f h = (refl, omega arith)
  run_next s (i ∷ is) (c, v, n, f) h =
      let (b, x) = step_next s i c v n in
      let (b', x') = run_next (step depth s i) is f (omega (arith, x)) in
      (b' ∙ b, omega (arith, x, x'))

  -- In a memory request of several beats, the beat that follows the first one and `n` more is
  -- captured with the request's address plus 8 n: the first beat and the second are both captured
  -- with the address itself.
  pub burst_address :
      (s : Monitor) (first : Inputs) (is : List Inputs) (beat : Inputs)
      → first.clear ≡ false
      → first.tap_valid ≡ true
      → first.tap_first ≡ true
      → Follows is
      → length is < 2 ^ 16
      → beat.tap_first ≡ false
      → (mem_addr s first ≡ first.tap_adr % 2 ^ 64)
        × (mem_addr (run (step depth) (step depth s first) is) beat
            ≡ (first.tap_adr + length is * 8) % 2 ^ 64)
  unfolding mem_addr
  burst_address s first is beat c v f fo h n =
      let (b, x) = step_first s first c v f in
      let (b', x') = run_next (step depth s first) is fo (omega (arith, x)) in
      (ground arith, ground (arith, b, x, b', x'))
