-- ===== src/Dma/Channel.antt =====
-- The engine with port A of the buffer, src/bsa_pcie_exerciser/gateware/dma/buffer.py. The host does
-- not use port B meanwhile.
use bsa_pcie_exerciser.Prelude.{
  ℕ, Bool, true, false, ◌||◌, ◌&&◌, ◌==◌, if◌then◌else◌, List, [], ◌∷◌, ◌++◌,
}
use bsa_pcie_exerciser.Dma.Engine.{Engine, Inputs, Source, Access, access, source}
use bsa_pcie_exerciser.Dma.Engine

-- The memory and the read register of port A.
pub record Port : Type 0 where
  pub mem : ℕ → ℕ
  pub a_dat_r : ℕ

unfoldable pub write_word : Access → (ℕ → ℕ) → ℕ → ℕ
write_word a mem n = if a.a_we && n == a.a_adr then a.a_dat_w else mem n

-- Migen's memory port (`simulation`) is write-first and reads in every cycle; the XPM port is
-- read-first and reads only when it is enabled.
unfoldable pub port_step : Bool → Port → Access → Port
unfolding write_word
port_step true p a = record { mem = write_word a p.mem; a_dat_r = write_word a p.mem a.a_adr }
port_step false p a = record {
  mem = write_word a p.mem;
  a_dat_r = if a.a_we || a.a_re then p.mem a.a_adr else p.a_dat_r;
}

pub record Channel : Type 0 where
  pub engine : Engine
  pub port : Port

unfoldable pub step : Bool → Channel → Inputs → Channel
unfolding port_step
step simulation s i = record {
  engine = Engine.step s.engine i;
  port = port_step simulation s.port (access s.engine i);
}

unfoldable pub present : Channel → Inputs → Source
present s i = source s.engine i s.port.a_dat_r

-- The beats that the master port takes on a run.
unfoldable pub sent : Bool → Channel → List Inputs → List Source
unfolding present
sent simulation s [] = []
sent simulation s (i ∷ is) =
    (if (present s i).valid && i.source_ready then present s i ∷ [] else [])
    ++ sent simulation (step simulation s i) is
