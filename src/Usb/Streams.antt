-- ===== src/Usb/Streams.antt =====
-- What the USB core uses of the stream library: the converters between one wide and several narrow
-- words, and the timer. They are parameters; the laws are their documented behaviour, the values
-- at the end show that these can be met.
use bsa_pcie_exerciser.Prelude.{
  ℕ, zero, suc, ◌+◌, ◌-◌, ◌<◌, ◌≡◌, Bool, true, false, ◌&&◌, ◌==◌, if◌then◌else◌, List, [], ◌∷◌,
}

-- Element `k`, or 0 behind the end.
unfoldable pub chunk_at : List ℕ → ℕ → ℕ
chunk_at [] k = 0
chunk_at (w ∷ ws) zero = w
chunk_at (w ∷ ws) (suc k) = chunk_at ws k

-- An Unpack of `n` chunks: `place` is the chunk that it presents.
pub record Unpack (n : ℕ) : Type 1 where
  pub Unpacking : Type 0
  pub start : Unpacking
  pub step : Unpacking → Bool → Bool → Unpacking
  pub word : Unpacking → List ℕ → ℕ
  pub sink_ready : Unpacking → Bool → Bool
  pub place : Unpacking → ℕ
  pub place_start : place start ≡ 0
  pub word_lem : (u : Unpacking) (chunks : List ℕ) → word u chunks ≡ chunk_at chunks (place u)
  pub sink_ready_lem :
      (u : Unpacking) (ready : Bool) → sink_ready u ready ≡ (ready && (place u + 1 == n))
  pub place_step :
      (u : Unpacking) (valid ready : Bool)
      → place (step u valid ready)
        ≡ (if valid && ready then if place u + 1 == n then 0 else place u + 1 else place u)

-- A Pack of `n` words with a reset input: `count` words are in, and with `n` its output is valid
-- until it is taken.
pub record Pack (n : ℕ) : Type 1 where
  pub Packing : Type 0
  pub start : Packing
  pub step : Packing → Bool → Bool → ℕ → Bool → Packing
  pub count : Packing → ℕ
  pub chunk : Packing → ℕ → ℕ
  pub source_valid : Packing → Bool
  pub count_start : count start ≡ 0
  pub source_valid_lem : (p : Packing) → source_valid p ≡ (count p == n)
  pub count_reset : (p : Packing) (v : Bool) (w : ℕ) (r : Bool) → count (step p true v w r) ≡ 0
  pub count_taken :
      (p : Packing) (w : ℕ) (r : Bool) → count p < n → count (step p false true w r) ≡ count p + 1
  pub chunk_taken :
      (p : Packing) (w : ℕ) (r : Bool) → count p < n → chunk (step p false true w r) (count p) ≡ w
  pub chunk_kept :
      (p : Packing) (w : ℕ) (r : Bool) (k : ℕ)
      → count p < n
      → k < count p
      → chunk (step p false true w r) k ≡ chunk p k
  pub count_waits :
      (p : Packing) (w : ℕ) (r : Bool) → count p < n → count (step p false false w r) ≡ count p
  pub chunk_waits :
      (p : Packing) (w : ℕ) (r : Bool) (k : ℕ)
      → count p < n
      → k < count p
      → chunk (step p false false w r) k ≡ chunk p k
  pub count_held :
      (p : Packing) (v : Bool) (w : ℕ) → count p ≡ n → count (step p false v w false) ≡ n
  pub chunk_held :
      (p : Packing) (v : Bool) (w k : ℕ)
      → count p ≡ n
      → chunk (step p false v w false) k ≡ chunk p k
  pub count_released : (p : Packing) (w : ℕ) → count p ≡ n → count (step p false false w true) ≡ 0

-- A WaitTimer: `left` cycles of waiting until it is done.
pub record WaitTimer : Type 1 where
  pub Timing : Type 0
  pub start : Timing
  pub step : Timing → Bool → Timing
  pub done : Timing → Bool
  pub cycles : ℕ
  pub left : Timing → ℕ
  pub left_start : left start ≡ cycles
  pub done_lem : (t : Timing) → done t ≡ (left t == 0)
  pub left_step :
      (t : Timing) (wait : Bool) → left (step t wait) ≡ (if wait then left t - 1 else cycles)
