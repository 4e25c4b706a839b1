-- ===== src/Usb/Fifo.antt =====
-- The FIFOs between the capture engines and the arbiter,
-- src/bsa_pcie_exerciser/gateware/usb/monitor/fifo.py. SyncFIFO and Converter are the stream library's:
-- parameters, with their documented behaviour as laws.
pub mod Words
pub mod Order
use bsa_pcie_exerciser.Prelude.{
  ℕ, zero, suc, ◌+◌, ◌-◌, ◌*◌, ◌≡◌, Bool, true, false, ◌&&◌, ltb, ◌==◌, if◌then◌else◌, List, [],
  ◌∷◌, ◌++◌, length, slice,
}

abbrev pub tail_of : List ℕ → List ℕ
tail_of [] = []
tail_of (w ∷ ws) = ws

abbrev pub holds_any : List ℕ → Bool
holds_any [] = false
holds_any (w ∷ ws) = true

-- An unbuffered SyncFIFO: `contents` is what it holds, the oldest entry first.
pub record SyncFifo (depth : ℕ) : Type 1 where
  pub Storing : Type 0
  pub start : Storing
  pub step : Storing → Bool → ℕ → Bool → Storing
  pub sink_ready : Storing → Bool
  pub source_valid : Storing → Bool
  pub source_data : Storing → ℕ
  pub contents : Storing → List ℕ
  pub contents_start : contents start ≡ []
  pub sink_ready_lem : (q : Storing) → sink_ready q ≡ ltb (length (contents q)) depth
  pub source_valid_lem : (q : Storing) → source_valid q ≡ holds_any (contents q)
  pub source_data_lem :
      (q : Storing) (w : ℕ) (ws : List ℕ) → contents q ≡ w ∷ ws → source_data q ≡ w
  pub contents_step :
      (q : Storing) (valid : Bool) (w : ℕ) (ready : Bool)
      → contents (step q valid w ready)
        ≡ (if ready then tail_of (contents q) else contents q)
          ++ (if valid && sink_ready q then w ∷ [] else [])

-- 32-bit word `k` of an entry.
unfoldable pub chunk_of : ℕ → ℕ → ℕ
chunk_of w k = slice w (32 * k) 32

-- A Converter from `n` times 32 bits to 32 bits: `place` is the word that it presents.
pub record Converter (n : ℕ) : Type 1 where
  pub Converting : Type 0
  pub start : Converting
  pub step : Converting → Bool → Bool → Converting
  pub sink_ready : Converting → Bool → Bool
  pub source_valid : Converting → Bool → Bool
  pub source_data : Converting → ℕ → ℕ
  pub place : Converting → ℕ
  pub place_start : place start ≡ 0
  pub sink_ready_lem :
      (c : Converting) (ready : Bool) → sink_ready c ready ≡ (ready && (place c + 1 == n))
  pub source_valid_lem : (c : Converting) (valid : Bool) → source_valid c valid ≡ valid
  pub source_data_lem : (c : Converting) (w : ℕ) → source_data c w ≡ chunk_of w (place c)
  pub place_step :
      (c : Converting) (valid ready : Bool)
      → place (step c valid ready)
        ≡ (if valid && ready then if place c + 1 == n then 0 else place c + 1 else place c)

pub record MonitorFifo (S C : Type 0) : Type 0 where
  pub fifo : S
  pub converter : C

-- The writer's data and the reader's readiness.
pub record Inputs : Type 0 where
  pub sink_valid : Bool
  pub sink_data : ℕ
  pub source_ready : Bool

module _ {depth n : ℕ} (sync : SyncFifo depth) (conv : Converter n) where
  abbrev pub reset : MonitorFifo sync.Storing conv.Converting
  reset = record { fifo = sync.start; converter = conv.start }

  unfoldable pub sink_ready : MonitorFifo sync.Storing conv.Converting → Bool
  sink_ready s = sync.sink_ready s.fifo

  unfoldable pub source_valid : MonitorFifo sync.Storing conv.Converting → Bool
  source_valid s = conv.source_valid s.converter (sync.source_valid s.fifo)

  unfoldable pub source_data : MonitorFifo sync.Storing conv.Converting → ℕ
  source_data s = conv.source_data s.converter (sync.source_data s.fifo)

  -- One clock cycle: sink → FIFO → converter → source.
  unfoldable pub step :
      MonitorFifo sync.Storing conv.Converting → Inputs → MonitorFifo sync.Storing conv.Converting
  step s i = record {
    fifo = sync.step s.fifo i.sink_valid i.sink_data (conv.sink_ready s.converter i.source_ready);
    converter = conv.step s.converter (sync.source_valid s.fifo) i.source_ready;
  }
