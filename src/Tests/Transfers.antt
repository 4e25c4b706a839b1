-- ===== src/Tests/Transfers.antt =====
-- Transfers of one DWORD in each direction.
use bsa_pcie_exerciser.Prelude.{
  ℕ, zero, suc, ◌≡◌, refl, true, false, not, ◌&&◌, ◌||◌, some, [], ◌∷◌, arith, run, replicate,
  slice,
}
use bsa_pcie_exerciser.Dma.Engine
use bsa_pcie_exerciser.Dma.Engine.{Inputs, idle}
use bsa_pcie_exerciser.Dma.Channel.{Channel, step, sent}
use bsa_pcie_exerciser.Dma.Write
use bsa_pcie_exerciser.Dma.Write.{Expect, write-accepted}
use bsa_pcie_exerciser.Dma.Finish.{write-finishes}
use bsa_pcie_exerciser.Dma.Read
use bsa_pcie_exerciser.Dma.Read.{Ask, read-accepted}
use bsa_pcie_exerciser.Dma.Store.{arrived, store_all, read-stored}

abbrev start : Channel
start = record { engine = Engine.reset; port = record { mem = λ n. n; a_dat_r = 0 } }

abbrev quiet : Inputs
quiet = record {
  trigger = false;
  direction = true;
  no_snoop = false;
  addr_type = 0;
  bus_addr = 0x1000;
  length = 4;
  offset = 16;
  pasid_en = false;
  pasid_val = 0;
  privileged = false;
  instruction = false;
  rid_override_valid = false;
  rid_override_value = 0;
  phy_id = 0x100;
  use_atc = false;
  atc_hit = false;
  atc_output_addr = 0;
  source_ready = true;
  sink_valid = false;
  sink_err = false;
  sink_last = false;
  sink_end = false;
  sink_dat = 0;
}

abbrev stalled : Inputs
stalled = record quiet { source_ready = false }

abbrev writes : Inputs
writes = record quiet { trigger = true }

abbrev reads : Inputs
reads = record writes { direction = false }

abbrev answer : Inputs
answer = record quiet { sink_valid = true; sink_last = true; sink_end = true; sink_dat = 0xabcd }

writes-Starts : Write.Starts start writes
writes-Starts = record {
  free = refl;
  go = refl;
  writes = refl;
  dwords = refl;
  positive = omega arith;
  bound = omega arith;
}

reads-Starts : Read.Starts start reads
reads-Starts = record {
  free = refl;
  go = refl;
  reads = refl;
  dwords = refl;
  positive = omega arith;
  bound = omega arith;
}

write-accepted_example :
    let final =
      run (step false) (step false start writes) (quiet ∷ quiet ∷ stalled ∷ quiet ∷ quiet ∷ []) in
    (r : Expect) × (Write.accept_all
        (λ n. n)
        (Write.whole writes)
        (sent false (step false start writes) (quiet ∷ quiet ∷ stalled ∷ quiet ∷ quiet ∷ []))
      ≡ some r)
    × (final.engine.state ≡ idle → (r.left ≡ 0) × (final.engine.status ≡ 0))
write-accepted_example =
    write-accepted false start writes (quiet ∷ quiet ∷ stalled ∷ quiet ∷ quiet ∷ []) writes-Starts (
      steady quiet refl refl refl,
      (
        steady quiet refl refl refl,
        (
          steady stalled refl refl refl,
          (steady quiet refl refl refl, (steady quiet refl refl refl, tt)),
        ),
      ),
    )
  where
    steady :
        (i : Inputs)
        → i.trigger ≡ false
        → (i.use_atc && i.atc_hit) ≡ false
        → (not false || i.source_ready) ≡ true
        → Write.Steady false i
    steady i a b c = record { no_trigger = a; untranslated = b; ready = c }

steady_quiet : (n : ℕ) → Write.AllSteady true (replicate n quiet)
steady_quiet zero = tt
steady_quiet (suc n) =
    (record { no_trigger = refl; untranslated = refl; ready = refl }, steady_quiet n)

write-finishes_example :
    (run (step true) (step true start writes) (replicate 20 quiet)).engine.state ≡ idle
write-finishes_example =
    write-finishes true start writes (replicate 20 quiet) writes-Starts (steady_quiet 20)
      (omega arith)

read-stored_example :
    (run (step true) (step true start reads) (quiet ∷ quiet ∷ answer ∷ quiet ∷ [])).port.mem
    ≡ store_all
        (slice 16 3 14)
        (arrived (step true start reads).engine (quiet ∷ quiet ∷ answer ∷ quiet ∷ []))
        (λ n. n)
read-stored_example =
    read-stored true start reads (quiet ∷ quiet ∷ answer ∷ quiet ∷ []) reads-Starts (omega arith)
      (refl, (refl, (refl, (refl, tt))))
