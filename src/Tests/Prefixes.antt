-- ===== src/Tests/Prefixes.antt =====
-- A memory write with a PASID prefix.
use bsa_pcie_exerciser.Prelude.{◌≡◌, refl, true, false, List, [], ◌∷◌, ◌++◌}
use bsa_pcie_exerciser.Pasid.{Beat, Inputs, reset, step, sink_ready}
use bsa_pcie_exerciser.Pasid.Tokens.{sent, fed, wanted, Framed, after, ends}
use bsa_pcie_exerciser.Pasid.Packets.{Drains, packets-sent}

abbrev header : Beat
header = record {
  first = true;
  last = false;
  dat = 0x0000_000f_4000_0001;
  be = 0xff;
  pasid_en = true;
  pasid_val = 5;
  privileged = true;
  execute = false;
}

abbrev payload : Beat
payload = record {
  first = false;
  last = true;
  dat = 0x1234_5678_1000_0000;
  be = 0xff;
  pasid_en = true;
  pasid_val = 5;
  privileged = true;
  execute = false;
}

abbrev offers : Beat → Inputs
offers b = record { sink_valid = true; sink = b; source_ready = true }

abbrev drain : Inputs
drain = record { sink_valid = false; sink = payload; source_ready = true }

abbrev cycles : List Inputs
cycles = offers header ∷ offers payload ∷ offers payload ∷ []

drain-Drains : Drains drain
drain-Drains = record { quiet = refl; ready = refl }

cycles-Framed : Framed false (fed reset cycles)
unfolding fed step sink_ready
cycles-Framed = (refl, (refl, tt))

cycles-ends : ends false (fed reset cycles) ≡ false
unfolding ends fed step sink_ready after
cycles-ends = refl

packets-sent_example : sent reset (cycles ++ (drain ∷ drain ∷ [])) ≡ wanted false (fed reset cycles)
packets-sent_example =
    packets-sent cycles drain drain cycles-Framed cycles-ends drain-Drains drain-Drains
