-- ===== src/Tests/Blocks.antt =====
-- Values of the stream library's blocks, which show that their laws can be met.
use bsa_pcie_exerciser.Prelude.{
  ℕ, ◌+◌, ◌-◌, ◌<◌, ◌≡◌, refl, Bool, true, false, ◌&&◌, ◌||◌, ltb, ◌==◌, if◌then◌else◌, List, [],
  ◌∷◌, ◌++◌, length, arith,
}
use bsa_pcie_exerciser.Usb.Streams.{Unpack, Pack, WaitTimer, chunk_at}
use bsa_pcie_exerciser.Usb.Fifo.{SyncFifo, Converter, chunk_of, tail_of, holds_any}

abbrev pub advance : ℕ → ℕ → Bool → Bool → ℕ
advance n u valid ready = if valid && ready then if u + 1 == n then 0 else u + 1 else u

abbrev pub unpack : Unpack 3
unfolding chunk_at
unpack = record {
  Unpacking = ℕ;
  start = 0;
  step = advance 3;
  word = λ u chunks. chunk_at chunks u;
  sink_ready = λ u ready. ready && (u + 1 == 3);
  place = λ u. u;
  place_start = refl;
  word_lem = λ u chunks. refl;
  sink_ready_lem = λ u ready. refl;
  place_step = λ u valid ready. refl;
}

pub record Words : Type 0 where
  pub count : ℕ
  pub first : ℕ
  pub second : ℕ

-- The word goes to its place if there is room, or if the output is taken.
abbrev pub load : Words → Bool → ℕ → Bool → Words
load p valid w ready =
    if p.count == 0 || (p.count == 2 && ready)
    then if valid
      then record { count = 1; first = w; second = p.second }
      else record p { count = 0 }
    else if valid && p.count == 1
    then record p { count = 2; second = w }
    else p

abbrev pub pack_step : Words → Bool → Bool → ℕ → Bool → Words
pack_step p reset valid w ready =
    if reset then record { count = 0; first = 0; second = 0 } else load p valid w ready

abbrev pub chunk_in : Words → ℕ → ℕ
chunk_in p k = if k == 0 then p.first else p.second

pub count_taken :
    (p : Words) (w : ℕ) (r : Bool) → p.count < 2 → (pack_step p false true w r).count ≡ p.count + 1
count_taken p w r h = ground arith

pub chunk_taken :
    (p : Words) (w : ℕ) (r : Bool) → p.count < 2 → chunk_in (pack_step p false true w r) p.count ≡ w
chunk_taken p w r h = ground arith

pub chunk_kept :
    (p : Words) (w : ℕ) (r : Bool) (k : ℕ)
    → p.count < 2
    → k < p.count
    → chunk_in (pack_step p false true w r) k ≡ chunk_in p k
chunk_kept p w r k h l = ground arith

pub count_waits :
    (p : Words) (w : ℕ) (r : Bool) → p.count < 2 → (pack_step p false false w r).count ≡ p.count
count_waits p w r h = ground arith

pub chunk_waits :
    (p : Words) (w : ℕ) (r : Bool) (k : ℕ)
    → p.count < 2
    → k < p.count
    → chunk_in (pack_step p false false w r) k ≡ chunk_in p k
chunk_waits p w r k h l = ground arith

pub count_held :
    (p : Words) (v : Bool) (w : ℕ) → p.count ≡ 2 → (pack_step p false v w false).count ≡ 2
count_held p v w h = ground arith

pub chunk_held :
    (p : Words) (v : Bool) (w k : ℕ)
    → p.count ≡ 2
    → chunk_in (pack_step p false v w false) k ≡ chunk_in p k
chunk_held p v w k h = ground arith

pub count_released : (p : Words) (w : ℕ) → p.count ≡ 2 → (pack_step p false false w true).count ≡ 0
count_released p w h = ground arith

unfoldable pub front : List ℕ → ℕ
front [] = 0
front (x ∷ xs) = x

pub front-head : (q : List ℕ) (w : ℕ) (ws : List ℕ) → q ≡ w ∷ ws → front q ≡ w
unfolding front
front-head q w ws e = ground (arith, e)

abbrev pub pack : Pack 2
pack = record {
  Packing = Words;
  start = record { count = 0; first = 0; second = 0 };
  step = pack_step;
  count = λ p. p.count;
  chunk = chunk_in;
  source_valid = λ p. p.count == 2;
  count_start = refl;
  source_valid_lem = λ p. refl;
  count_reset = λ p v w r. refl;
  count_taken = count_taken;
  chunk_taken = chunk_taken;
  chunk_kept = chunk_kept;
  count_waits = count_waits;
  chunk_waits = chunk_waits;
  count_held = count_held;
  chunk_held = chunk_held;
  count_released = count_released;
}

abbrev pub timer : WaitTimer
timer = record {
  Timing = ℕ;
  start = 100;
  step = λ t wait. if wait then t - 1 else 100;
  done = λ t. t == 0;
  cycles = 100;
  left = λ t. t;
  left_start = refl;
  done_lem = λ t. refl;
  left_step = λ t wait. refl;
}

abbrev pub sync_fifo : (depth : ℕ) → SyncFifo depth
sync_fifo depth = record {
  Storing = List ℕ;
  start = [];
  step = λ q valid w ready.
      (if ready then tail_of q else q) ++ (if valid && ltb (length q) depth then w ∷ [] else []);
  sink_ready = λ q. ltb (length q) depth;
  source_valid = λ q. holds_any q;
  source_data = front;
  contents = λ q. q;
  contents_start = refl;
  sink_ready_lem = λ q. refl;
  source_valid_lem = λ q. refl;
  source_data_lem = front-head;
  contents_step = λ q valid w ready. refl;
}

abbrev pub converter : (n : ℕ) → Converter n
unfolding chunk_of
converter n = record {
  Converting = ℕ;
  start = 0;
  step = advance n;
  sink_ready = λ c ready. ready && (c + 1 == n);
  source_valid = λ c valid. valid;
  source_data = λ c w. chunk_of w c;
  place = λ c. c;
  place_start = refl;
  sink_ready_lem = λ c ready. refl;
  source_valid_lem = λ c valid. refl;
  source_data_lem = λ c w. refl;
  place_step = λ c valid ready. refl;
}
