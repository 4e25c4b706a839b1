-- ===== src/Tests/Captures.antt =====
-- A monitor with two places.
use bsa_pcie_exerciser.Prelude.{◌≡◌, refl, true, false, List, [], ◌∷◌, ◌++◌, arith, run}
use bsa_pcie_exerciser.Monitor.{Inputs, step, reset, do_capture, txn_consumed, txn_dropped}
use bsa_pcie_exerciser.Monitor.Fifo.{Inv}
use bsa_pcie_exerciser.Monitor.Log.{arrivals}
use bsa_pcie_exerciser.Monitor.Words.{words}
use bsa_pcie_exerciser.Monitor.Reads.{left, read_words, run-reads}

abbrev beat : Inputs
beat = record {
  tap_valid = true;
  tap_first = true;
  tap_last = false;
  tap_we = true;
  tap_adr = 0x1000;
  tap_len = 6;
  tap_dat = 0x1122_3344;
  tap_first_be = 0xf;
  tap_last_be = 0xf;
  tap_bar_hit = 1;
  tap_cfg_valid = false;
  tap_cfg_we = false;
  tap_cfg_type = false;
  tap_cfg_bus_number = 1;
  tap_cfg_device_no = 2;
  tap_cfg_func = 3;
  tap_cfg_ext_reg = 4;
  tap_cfg_register_no = 5;
  tap_cfg_first_be = 0xf;
  tap_cfg_dat = 0xabcd;
  enable = true;
  clear = false;
  fifo_read = false;
}

abbrev next : Inputs
next = record beat { tap_first = false }

abbrev config : Inputs
config = record beat { tap_valid = false; tap_cfg_valid = true }

abbrev reads : Inputs
reads = record beat { tap_valid = false; fifo_read = true }

fresh-Inv : Inv 2 reset
fresh-Inv = ground arith

abbrev waits : Inputs
waits = record beat { tap_valid = false }

-- Six reads, the first five of which take the first capture.
abbrev cycles : List Inputs
cycles =
    beat ∷ reads ∷ waits ∷ reads ∷ waits ∷ reads ∷ next ∷ reads ∷ waits ∷ reads ∷ waits ∷ reads ∷ []

nothing_dropped : (run (step 2) reset cycles).overflow ≡ false
unfolding run step txn_dropped do_capture txn_consumed
nothing_dropped = refl

run-reads_example :
    left 2 reset ++ words (arrivals 2 reset cycles)
    ≡ read_words 2 reset cycles ++ left 2 (run (step 2) reset cycles)
run-reads_example =
    run-reads 2 reset cycles fresh-Inv refl
      (
        refl,
        (refl, (refl, (refl, (refl, (refl, (refl, (refl, (refl, (refl, (refl, (refl, tt))))))))))),
      )
      (
        refl,
        (refl, (refl, (refl, (refl, (refl, (refl, (refl, (refl, (refl, (refl, (refl, tt))))))))))),
      )
      nothing_dropped
