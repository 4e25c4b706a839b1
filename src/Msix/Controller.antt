-- ===== src/Msix/Controller.antt =====
-- The controller, src/bsa_pcie_exerciser/gateware/msix/controller.py, the class
-- LitePCIeMSIXController, with the table and the pending bits that it drives.
use bsa_pcie_exerciser.Prelude.{ℕ, Bool, true, false, ◌&&◌, if◌then◌else◌}
use bsa_pcie_exerciser.Msix.Table
use bsa_pcie_exerciser.Msix.Table.{Table}
use bsa_pcie_exerciser.Msix.Pba
use bsa_pcie_exerciser.Msix.Pba.{Pba}

pub data State : Type 0 where
  idle read_table issue_write : State

pub record Msix : Type 0 where
  pub state : State
  pub current_vector : ℕ
  pub table : Table
  pub pba : Pba

-- The software trigger, the readiness of the master port, and the two request streams.
pub record Inputs : Type 0 where
  pub sw_vector : ℕ
  pub sw_valid : Bool
  pub port_ready : Bool
  pub table_request : Table.Inputs
  pub pba_request : Table.Inputs

-- What the controller drives towards the table and the pending bits.
pub record Drives : Type 0 where
  pub vector_num : ℕ
  pub read_en : Bool
  pub pba_vector_num : ℕ
  pub set_pending : Bool
  pub clear_pending : Bool

unfoldable pub drive : State → Msix → Inputs → Drives
drive idle s i = record {
  vector_num = if i.sw_valid then i.sw_vector else 0;
  read_en = i.sw_valid;
  pba_vector_num = 0;
  set_pending = false;
  clear_pending = false;
}
drive read_table s i = record {
  vector_num = s.current_vector;
  read_en = false;
  pba_vector_num = if s.table.read_valid && Table.masked s.table then s.current_vector else 0;
  set_pending = s.table.read_valid && Table.masked s.table;
  clear_pending = false;
}
drive issue_write s i = record {
  vector_num = 0;
  read_en = false;
  pba_vector_num = if i.port_ready then s.current_vector else 0;
  set_pending = false;
  clear_pending = i.port_ready;
}

unfoldable pub next_state : State → Msix → Inputs → State
next_state idle s i = if i.sw_valid then read_table else idle
next_state read_table s i =
    if s.table.read_valid then (if Table.masked s.table then idle else issue_write) else read_table
next_state issue_write s i = if i.port_ready then idle else issue_write

-- One clock cycle of the three modules.
unfoldable pub step : Msix → Inputs → Msix
unfolding drive next_state
step s i =
    let d = drive s.state s i in
    record {
      state = next_state s.state s i;
      current_vector = elim s.state [
        | idle ↦ if i.sw_valid then i.sw_vector else s.current_vector
        | _ ↦ s.current_vector
      ];
      table = Table.step s.table i.table_request d.read_en d.vector_num;
      pba = Pba.step s.pba i.pba_request d.pba_vector_num d.set_pending d.clear_pending;
    }

-- The write on the master port: valid, address, data.
unfoldable pub message : Msix → Bool × ℕ × ℕ
message s = (
  elim s.state [ issue_write ↦ true | _ ↦ false ],
  Table.msg_addr s.table,
  Table.msg_data s.table,
)
