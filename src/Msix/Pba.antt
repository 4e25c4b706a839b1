-- ===== src/Msix/Pba.antt =====
-- The pending bits, src/bsa_pcie_exerciser/gateware/msix/table.py, the class LitePCIeMSIXPBA.
use bsa_pcie_exerciser.Prelude.{
  ℕ, ◌+◌, ◌-◌, ◌^◌, ◌/◌, ◌%◌, Bool, ◌&&◌, ◌==◌, if◌then◌else◌, bit, slice,
}
use bsa_pcie_exerciser.Msix.Table.{Inputs}

pub data State : Type 0 where
  idle write_ignore read complete : State

-- The registers of the module.
pub record Pba : Type 0 where
  pub state : State
  pub pending : ℕ → ℕ
  pub req_adr : ℕ
  pub req_len : ℕ
  pub req_tag : ℕ
  pub req_req_id : ℕ
  pub pba_qword_idx : ℕ
  pub read_data : ℕ

abbrev pub reset : Pba
reset = record {
  state = idle;
  pending = λ _. 0;
  req_adr = 0;
  req_len = 0;
  req_tag = 0;
  req_req_id = 0;
  pba_qword_idx = 0;
  read_data = 0;
}

unfoldable pub set_bit : ℕ → ℕ → ℕ
set_bit w b = if bit w b then w else w + 2 ^ b

unfoldable pub clear_bit : ℕ → ℕ → ℕ
clear_bit w b = if bit w b then w - 2 ^ b else w

unfoldable pub update : (ℕ → ℕ) → ℕ → ℕ → ℕ → ℕ
update pending q w n = if n == q then w else pending n

-- The indexed update; a clear wins over a set.
unfoldable pub next_pending : (ℕ → ℕ) → ℕ → Bool → Bool → ℕ → ℕ
unfolding set_bit clear_bit update
next_pending pending vector_num set_pending clear_pending =
    let q = vector_num / 2 ^ 6 % 2 ^ 5 in
    let b = vector_num % 2 ^ 6 in
    if clear_pending
    then update pending q (clear_bit (pending q) b)
    else if set_pending
    then update pending q (set_bit (pending q) b)
    else pending

unfoldable pub in_idle : Pba → Inputs → Pba
in_idle s i =
    if i.valid && i.first
    then record s {
      req_adr = i.adr % 2 ^ 32;
      req_len = i.len;
      req_tag = i.tag;
      req_req_id = i.req_id;
      pba_qword_idx = slice i.adr 3 5;
      state = if i.we then (if i.last then idle else write_ignore) else read;
    }
    else s

unfoldable pub dispatch : State → Pba → Inputs → Pba
unfolding in_idle
dispatch idle s i = in_idle s i
dispatch write_ignore s i = if i.valid && i.last then record s { state = idle } else s
dispatch read s i = record s { read_data = s.pending s.pba_qword_idx; state = complete }
dispatch complete s i = if i.cpl_ready then record s { state = idle } else s

-- One clock cycle; the vector and the two pulses come from the controller.
unfoldable pub step : Pba → Inputs → ℕ → Bool → Bool → Pba
unfolding dispatch next_pending
step s i vector_num set_pending clear_pending =
    let t = dispatch s.state s i in
    record t { pending = next_pending s.pending vector_num set_pending clear_pending }
