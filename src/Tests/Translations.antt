-- ===== src/Tests/Translations.antt =====
-- A translation of 0x1000 to 0x5000 by the three modules, and one during which the register moves.
use bsa_pcie_exerciser.Prelude.{
  ◌+◌, ◌%◌, ◌^◌, ◌≤◌, ◌<◌, ◌≡◌, ◌≢◌, ◌↔◌, ◌⊎◌, refl, true, false, [], ◌∷◌, ◌++◌, arith, run,
}
use bsa_pcie_exerciser.Ats.Atc
use bsa_pcie_exerciser.Ats.Engine
use bsa_pcie_exerciser.Ats.Engine.{range_of, trans_addr, permissions_of}
use bsa_pcie_exerciser.Ats.Invalidation
use bsa_pcie_exerciser.Ats.System.{System, Inputs, step, engine_inputs}
use bsa_pcie_exerciser.Ats.System.Translate.{Translates, Keeps, cycles, translate, translate_moved}

abbrev start : System
start = record {
  atc = Atc.reset;
  engine = Engine.reset;
  handler = Invalidation.reset;
  ats_enable_prev = true;
}

abbrev quiet : Inputs
quiet = record {
  ats_trigger = false;
  ats_enable = true;
  dma_bus_addr = 0x1000;
  ats_pasid_en = false;
  pasid_val = 0;
  ats_privileged = false;
  ats_no_write = false;
  ats_exec_req = false;
  ats_clear_atc = false;
  dma_use_atc = true;
  source_ready = false;
  sink_valid = false;
  sink_err = false;
  sink_last = false;
  sink_end = false;
  sink_dat = 0;
  lookup_addr = 0x1234;
  pasid_out_en = false;
  pasid_out_val = 0;
  dma_busy = false;
  inv_valid = false;
  inv_first = false;
  inv_last = false;
  inv_address = 0;
  inv_s_bit = false;
  inv_g_bit = false;
  inv_requester_id = 0;
  inv_tag = 0;
  inv_itag = 0;
  msg_ready = true;
}

abbrev go : Inputs
go = record quiet { ats_trigger = true }

abbrev taken : Inputs
taken = record quiet { source_ready = true }

abbrev answer : Inputs
answer = record quiet { sink_valid = true; sink_last = true; sink_end = true; sink_dat = 0x5003 }

abbrev moved : Inputs
moved = record quiet { dma_bus_addr = 0x7000; lookup_addr = 0x7000 }

go-Translates : Translates start go (quiet ∷ []) taken (quiet ∷ []) answer quiet
unfolding engine_inputs
go-Translates = record {
  quiet = refl;
  ready = refl;
  silent_bus = (refl, (refl, (refl, (refl, (refl, (refl, tt))))));
  trigger = refl;
  enabled = refl;
  stalled = (refl, tt);
  taken = refl;
  waiting = (refl, refl, tt);
  in_time = omega arith;
  arrives = (refl, refl, refl, refl);
  translated = refl;
}

quiet-Keeps : Keeps 0x5003 quiet
unfolding range_of trans_addr
quiet-Keeps = record {
  not_cleared = refl;
  still_enabled = refl;
  size = omega arith;
  input_fits = omega arith;
  output_fits = omega arith;
}

moved-Keeps : Keeps 0x5003 moved
unfolding range_of trans_addr
moved-Keeps = record {
  not_cleared = refl;
  still_enabled = refl;
  size = omega arith;
  input_fits = omega arith;
  output_fits = omega arith;
}

translate_example :
    let u =
      (run step start
        (cycles go (quiet ∷ []) taken (quiet ∷ []) answer quiet ++ (quiet ∷ quiet ∷ []))).atc in
    let inside = (0x1000 ≤ 0x1234) × (0x1234 < 0x1000 + range_of 0x5003) in
    let context =
      ((false ≡ false) × (false ≡ false))
      ⊎ ((false ≡ true) × (false ≡ true) × (quiet.pasid_val % 2 ^ 20 ≡ quiet.pasid_out_val)) in
    ((u.lookup_hit ≡ true) ↔ (inside × context))
    × (inside → u.lookup_output + 0x1000 ≡ trans_addr 0x5003 + 0x1234)
    × (u.lookup_perm ≡ permissions_of false 0x5003)
translate_example = translate quiet quiet go-Translates quiet-Keeps

translate_moved_example :
    let u =
      (run step start
        (cycles go (quiet ∷ []) taken (quiet ∷ []) answer quiet ++ (moved ∷ moved ∷ []))).atc in
    ((Engine.request (step start go).engine).adr ≡ 0x1000)
    × ((Engine.request (step start go).engine).adr ≢ 0x7000)
    × (u.lookup_hit ≡ true)
    × (u.lookup_output ≡ trans_addr 0x5003)
translate_moved_example =
    translate_moved moved moved go-Translates moved-Keeps (omega arith) refl refl refl
