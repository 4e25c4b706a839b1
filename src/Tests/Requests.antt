-- ===== src/Tests/Requests.antt =====
-- Translation requests of the engine.
use bsa_pcie_exerciser.Prelude.{refl, true, false, [], ◌∷◌, ◌++◌, arith, run}
use bsa_pcie_exerciser.Ats.Engine.{Engine, Inputs, step, reset, wait_cpl}
use bsa_pcie_exerciser.Ats.Engine.Answer.{Answered, request-answer}

abbrev quiet : Inputs
quiet = record {
  trigger = false;
  address = 0x1000;
  pasid_en = false;
  pasid_val = 0;
  privileged = true;
  no_write = false;
  exec_req = false;
  clear_atc = false;
  retry = false;
  source_ready = false;
  sink_valid = false;
  sink_err = false;
  sink_last = false;
  sink_end = false;
  sink_dat = 0;
}

abbrev go : Inputs
go = record quiet { trigger = true }

abbrev taken : Inputs
taken = record quiet { source_ready = true }

-- Read and write, 4 KiB at 0x5000.
abbrev answer : Inputs
answer = record quiet { sink_valid = true; sink_last = true; sink_end = true; sink_dat = 0x5003 }

abbrev tired : Engine
tired = record reset { state = wait_cpl; timeout_counter = 0xff_fffe }

request-answer_example :
    Answered true 0x5003
      (run step reset (go ∷ ((quiet ∷ []) ++ (taken ∷ ((quiet ∷ []) ++ (answer ∷ quiet ∷ []))))))
request-answer_example =
    request-answer reset go (quiet ∷ []) taken (quiet ∷ []) answer quiet refl refl (refl, tt) refl
      (refl, refl, tt) (omega arith) (refl, refl, refl, refl, refl)
