-- ===== src/Tests/Monitors.antt =====
-- The USB monitor from its taps to the crossbar.
use bsa_pcie_exerciser.Prelude.{true, false, List, ◌∷◌, replicate}
use bsa_pcie_exerciser.Usb.Taps.{Inputs}
use bsa_pcie_exerciser.Usb.Fifo.{SyncFifo, Converter}
use bsa_pcie_exerciser.Usb.Top.{blank_rx, blank_tx, blank_cpl}
use bsa_pcie_exerciser.Usb.Top.Passing.{
  Passes, took_rx_header, rx_header, took_rx_payload, rx_payload, took_tx_header, tx_header,
  took_tx_payload, tx_payload, run-Passes,
}
use bsa_pcie_exerciser.Tests.Blocks.{sync_fifo, converter}

abbrev quiet : Inputs
quiet = record {
  rx_enable = true;
  tx_enable = true;
  clear_stats = false;
  timestamp = 9;
  rx_req = blank_rx;
  rx_cpl = blank_cpl;
  tx_req = blank_tx;
  tx_cpl = blank_cpl;
  source_ready = true;
}

-- An inbound write of one beat, and an outbound read in the same cycle.
abbrev both : Inputs
both = record quiet {
  rx_req = record blank_rx {
    valid = true;
    ready = true;
    first = true;
    last = true;
    we = true;
    adr = 0x1000;
    len = 2;
    dat = 0x1122334455667788;
  };
  tx_req = record blank_tx {
    valid = true;
    ready = true;
    first = true;
    last = true;
    adr = 0x2000;
    len = 4;
  };
}

abbrev hs : SyncFifo 4
hs = sync_fifo 4

abbrev hc : Converter 8
hc = converter 8

abbrev ps : SyncFifo 512
ps = sync_fifo 512

abbrev pc : Converter 2
pc = converter 2

abbrev cycles : List Inputs
cycles = both ∷ replicate 24 quiet

run-Passes_example :
    Passes hs hc ps pc hs hc
      (λ s. s.rx_header_fifo)
      (took_rx_header hs hc ps pc)
      (rx_header hs hc ps pc)
      cycles
    × Passes hs hc ps pc ps pc
        (λ s. s.rx_payload_fifo)
        (took_rx_payload hs hc ps pc)
        (rx_payload hs hc ps pc)
        cycles
    × Passes hs hc ps pc hs hc
        (λ s. s.tx_header_fifo)
        (took_tx_header hs hc ps pc)
        (tx_header hs hc ps pc)
        cycles
    × Passes hs hc ps pc ps pc
        (λ s. s.tx_payload_fifo)
        (took_tx_payload hs hc ps pc)
        (tx_payload hs hc ps pc)
        cycles
run-Passes_example = run-Passes hs hc ps pc cycles
