-- ===== src/Tests/Routes.antt =====
-- Requests and completions of two BARs.
use bsa_pcie_exerciser.Prelude.{
  ℕ, ◌≤◌, ◌≡◌, refl, Bool, true, false, ◌&&◌, ◌||◌, ◌==◌, if◌then◌else◌, List, [], ◌∷◌, ◌++◌, arith,
  run,
}
use bsa_pcie_exerciser.Endpoint.{Request, Completion}
use bsa_pcie_exerciser.Endpoint.Grants.{Inputs, unlocked, source_ready}
use bsa_pcie_exerciser.Endpoint.Grants.Whole.{framed, whole, beats_from}
use bsa_pcie_exerciser.Endpoint.Completions
use bsa_pcie_exerciser.Endpoint.Completions.Order.{merged, taken, merged-whole}
use bsa_pcie_exerciser.Endpoint.Dispatcher
use bsa_pcie_exerciser.Endpoint.Dispatcher.Routing.{
  accepted, received, long, all_beats, packets_to, received-packets,
}
use bsa_pcie_exerciser.Endpoint.Masters
use bsa_pcie_exerciser.Endpoint.Masters.Turns.{finished, waiting, finished-waiting}
use bsa_pcie_exerciser.Endpoint.RawTx
use bsa_pcie_exerciser.Endpoint.RawTx.Unbroken.{
  sent, unbroken, beats_of, raw_taken, main_taken, sent-unbroken,
}
use bsa_pcie_exerciser.Endpoint.Stub
use bsa_pcie_exerciser.Endpoint.Stub.Answers.{patient}

abbrev request : Bool → ℕ → Request
request w hit = record {
  we = w;
  adr = 0x1000;
  len = 4;
  req_id = 0x100;
  tag = 7;
  dat = 0x1122_3344;
  channel = 0;
  user_id = 0;
  bar_hit = hit;
  first_be = 15;
  last_be = 15;
  attr = 0;
  at = 0;
}

-- A write of two beats to BAR 1, whose second beat carries another hit vector.
abbrev offered : List Dispatcher.Inputs
offered =
    record {
      source_valid = true;
      source = record { first = true; last = false; body = request true 2 };
      sink_ready = λ _. true;
    }
    ∷ (record {
      source_valid = true;
      source = record { first = false; last = true; body = request true 4 };
      sink_ready = λ k. k == 1;
    }
        ∷ [])

offered-accepted :
    accepted Dispatcher.reset offered ≡ all_beats (long (request true 2) [] (request true 4) ∷ [])
unfolding accepted all_beats Dispatcher.step Dispatcher.source_ready Dispatcher.bar_of
offered-accepted = refl

received-packets_example :
    received 1 Dispatcher.reset offered
    ≡ all_beats (packets_to 1 (long (request true 2) [] (request true 4) ∷ []))
received-packets_example =
    received-packets 1 offered (long (request true 2) [] (request true 4) ∷ []) offered-accepted

-- Two sources at once.
abbrev completion : ℕ → Completion
completion t = record {
  dat = 0;
  len = 1;
  end = true;
  err = false;
  tag = t;
  status = 0;
  byte_count = 4;
  adr = 0;
  req_id = 0x100;
  cmp_id = 0;
  channel = 0;
  user_id = 0;
}

abbrev both_complete : Inputs Completion
both_complete = record {
  valid = λ k. k == 0 || k == 3;
  beat = λ k. record { first = true; last = true; body = completion k };
  sink_ready = true;
}

single :
    (q : Bool) (k : ℕ) → framed false ((if q then both_complete.beat k ∷ [] else []) ++ []) ≡ true
unfolding framed
single true k = refl
single false k = refl

both_complete-framed : (k : ℕ) → framed false (taken 6 k unlocked (both_complete ∷ [])) ≡ true
unfolding taken
both_complete-framed k =
    single
      (both_complete.valid k
        && source_ready 6 (Completions.granted 6 unlocked both_complete) both_complete k)
      k

merged-whole_example :
    (whole false 0 (merged 6 unlocked (both_complete ∷ [])) ≡ true)
    × ((k : ℕ)
        → beats_from k (merged 6 unlocked (both_complete ∷ []))
          ≡ taken 6 k unlocked (both_complete ∷ []))
merged-whole_example = merged-whole 6 (both_complete ∷ []) both_complete-framed

-- Source 1 waits while source 0 sends a packet of one beat.
abbrev both_request : Inputs Request
both_request = record {
  valid = λ k. k == 0 || k == 1;
  beat = λ k. record { first = true; last = true; body = request true 1 };
  sink_ready = true;
}

both_request-waiting :
    waiting 2 1 (run (Masters.step 2) Masters.reset []) (both_request ∷ []) ≡ true
unfolding waiting run Masters.step Masters.granted
both_request-waiting = refl

finished-waiting_example :
    finished 2 (run (Masters.step 2) Masters.reset []) (both_request ∷ []) ≤ 2
finished-waiting_example =
    finished-waiting 2 1 [] (both_request ∷ []) (omega arith) both_request-waiting

-- A read of a BAR that is not implemented.
abbrev asks : List Stub.Inputs
asks =
    record {
      valid = true;
      req = record { first = true; last = true; body = request false 8 };
      cpl_ready = false;
    }
    ∷ (record {
      valid = false;
      req = record { first = true; last = true; body = request false 8 };
      cpl_ready = true;
    }
        ∷ [])

asks-patient : patient Stub.reset asks ≡ true
unfolding patient Stub.step
asks-patient = refl

-- A raw packet of two beats against a packet of the packetizer.
abbrev raced : RawTx.Inputs
raced = record {
  raw_valid = true;
  raw = record { first = true; last = false; body = record { dat = 1; be = 0xff } };
  main_valid = true;
  main = record { first = true; last = false; body = record { dat = 2; be = 0xff } };
  phy_ready = true;
}

sent-unbroken_example :
    (unbroken false (sent RawTx.reset (raced ∷ raced ∷ [])) ≡ true)
    × (beats_of true (sent RawTx.reset (raced ∷ raced ∷ []))
        ≡ raw_taken RawTx.reset (raced ∷ raced ∷ []))
    × (beats_of false (sent RawTx.reset (raced ∷ raced ∷ []))
        ≡ main_taken RawTx.reset (raced ∷ raced ∷ []))
sent-unbroken_example = sent-unbroken (raced ∷ raced ∷ [])
