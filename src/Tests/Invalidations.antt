-- ===== src/Tests/Invalidations.antt =====
-- Invalidation requests for a page, with a cache entry on it, off it, and above 4 GiB.
use bsa_pcie_exerciser.Prelude.{◌≡◌, ◌↔◌, refl, true, false, [], ◌∷◌, arith, run, inr}
use bsa_pcie_exerciser.Ats.Invalidation.{Handler, Inputs, step, reset, send_cpl, atc_invalidate}
use bsa_pcie_exerciser.Ats.Invalidation.Decision.{Touched, Free, page_of, request-invalidates}
use bsa_pcie_exerciser.Ats.Invalidation.Reach.{Low, High-never_invalidated}

abbrev quiet : Inputs
quiet = record {
  inv_valid = false;
  inv_first = false;
  inv_last = false;
  address = 0;
  s_bit = false;
  g_bit = false;
  requester_id = 0;
  tag = 0;
  itag = 0;
  atc_valid = true;
  atc_input_addr = 0x1000;
  atc_input_addr_end = 0x1fff;
  atc_pasid_valid = false;
  atc_pasid_val = 0;
  ats_in_flight = false;
  dma_busy = false;
  dma_using_atc = false;
  msg_ready = false;
}

abbrev asks : Inputs
asks = record quiet {
  inv_valid = true;
  inv_first = true;
  inv_last = true;
  address = 0x1000;
  requester_id = 0x100;
  tag = 7;
  itag = 3;
}

abbrev flying : Inputs
flying = record quiet { ats_in_flight = true }

abbrev elsewhere : Inputs
elsewhere = record quiet { atc_input_addr = 0x9000; atc_input_addr_end = 0x9fff }

abbrev high : Inputs
high = record asks { atc_input_addr = 0x1_0000_1000; atc_input_addr_end = 0x1_0000_1fff }

abbrev ready : Inputs
ready = record quiet { msg_ready = true }

abbrev answering : Handler
answering = record reset { state = send_cpl; inv_req_id = 0x100; inv_tag = 7; inv_itag = 3 }

request-invalidates_example :
    (atc_invalidate (step (step reset asks) quiet) ≡ true)
    ↔ (Touched (page_of 0x1000) false quiet × Free quiet)
request-invalidates_example =
    request-invalidates reset asks quiet refl refl refl refl refl (omega arith)

-- A request that waits for its answer to be sent, and one for a page below the entry.
answering-Low : Low answering
answering-Low = ground arith

abbrev low_asked : Inputs
low_asked = record asks { atc_input_addr = high.atc_input_addr }

High-never_invalidated_example :
    atc_invalidate (run step answering (high ∷ low_asked ∷ high ∷ [])) ≡ false
High-never_invalidated_example =
    High-never_invalidated answering (high ∷ low_asked ∷ high ∷ []) answering-Low
      (omega arith, inr refl, (omega arith, inr refl, (omega arith, inr refl, tt)))
