-- ===== src/Tests/Vectors.antt =====
-- Vector 3 of the MSI-X table.
use bsa_pcie_exerciser.Prelude.{◌≡◌, refl, true, false, ◌==◌, if◌then◌else◌, slice, bit, arith}
use bsa_pcie_exerciser.Msix.Table
use bsa_pcie_exerciser.Msix.Table.{write_be, write_data, cpl_data, mem_init}
use bsa_pcie_exerciser.Msix.Pba
use bsa_pcie_exerciser.Msix.Controller.{Msix, Inputs, step, idle, message}
use bsa_pcie_exerciser.Msix.Fire.{Triggers, trigger-fires}
use bsa_pcie_exerciser.Msix.Host.{Cycle, tick, write-read}
use bsa_pcie_exerciser.Msix.Words.{Writes, Reads, dword}

abbrev no_beat : Table.Inputs
no_beat = record {
  valid = false;
  first = false;
  last = false;
  we = false;
  adr = 0;
  len = 0;
  tag = 0;
  req_id = 0;
  dat = 0;
  first_be = 0;
  last_be = 0;
  cpl_ready = true;
}

abbrev writing : Table.Inputs
writing = record no_beat {
  valid = true;
  first = true;
  last = true;
  we = true;
  adr = 0x34;
  len = 1;
  dat = 0xfee0;
  first_be = 0xf;
}

abbrev reading : Table.Inputs
reading = record no_beat { valid = true; first = true; last = true; adr = 0x34; len = 1 }

abbrev quiet : Cycle
quiet = record { beat = no_beat; read_en = false; vector_num = 0 }

abbrev writes : Cycle
writes = record { beat = writing; read_en = false; vector_num = 0 }

abbrev reads : Cycle
reads = record { beat = reading; read_en = false; vector_num = 0 }

writing-Writes : Writes writing
writing-Writes = record {
  valid = refl;
  first = refl;
  we = refl;
  one = refl;
  bytes = refl;
  none = refl;
}

reading-Reads : Reads reading
reading-Reads = record { valid = refl; first = refl; we = refl; one = refl }

write-read_example :
    let t = tick (tick (tick (tick (tick Table.reset writes) quiet) reads) quiet) quiet in
    (t.state ≡ Table.complete)
    × (cpl_data t
        ≡ (if slice 0x34 2 13 == slice 0x34 2 13 then slice 0xfee0 0 32 else dword mem_init 0x34))
write-read_example =
    write-read Table.reset writes quiet reads quiet quiet refl writing-Writes refl reading-Reads

-- A table in which vector 3 has an address and is not masked, and one that is all masked.
abbrev armed : Msix
armed = record {
  state = idle;
  current_vector = 0;
  table = record Table.reset { mem = λ n. if n == 6 then 0xfee0_0000 else 0x41 };
  pba = Pba.reset;
}

abbrev masked : Msix
masked = record armed { table = Table.reset }

abbrev go : Inputs
go = record {
  sw_vector = 3;
  sw_valid = true;
  port_ready = true;
  table_request = no_beat;
  pba_request = no_beat;
}

abbrev wait : Inputs
wait = record go { sw_valid = false }

armed-Triggers : Triggers armed go
armed-Triggers = record {
  ready = refl;
  rested = refl;
  valid = refl;
  vector = omega arith;
  alone = refl;
  low = omega arith;
  high = omega arith;
}

masked-Triggers : Triggers masked go
unfolding mem_init
masked-Triggers = record {
  ready = refl;
  rested = refl;
  valid = refl;
  vector = omega arith;
  alone = refl;
  low = omega arith;
  high = omega arith;
}

masked_bit : bit (mem_init 7) 32 ≡ true
unfolding mem_init
masked_bit = refl

trigger-fires_example :
    message (step (step (step (step (step armed go) wait) wait) wait) wait)
    ≡ (true, 0xfee0_0000, slice 0x41 0 32)
trigger-fires_example = trigger-fires armed go wait wait wait wait armed-Triggers refl refl refl
