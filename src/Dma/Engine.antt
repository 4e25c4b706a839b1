-- ===== src/Dma/Engine.antt =====
-- The DMA engine, src/bsa_pcie_exerciser/gateware/dma/engine.py, for the 64-bit data path.
use bsa_pcie_exerciser.Prelude.{
  ℕ, ◌+◌, ◌-◌, ◌/◌, ◌%◌, ◌^◌, Bool, true, false, ◌&&◌, not, ◌==◌, ltb, if◌then◌else◌, slice, b2n,
}

pub data State : Type 0 where
  idle setup issue_rd wait_cpl load_data issue_wr complete : State

-- The registers of the module.
pub record Engine : Type 0 where
  pub state : State
  pub current_addr : ℕ
  pub current_offset : ℕ
  pub remaining_len : ℕ
  pub current_dir : Bool
  pub current_ns : Bool
  pub current_at : ℕ
  pub current_pasid_en : Bool
  pub current_pasid_val : ℕ
  pub current_priv : Bool
  pub current_exec : Bool
  pub current_rid_override_valid : Bool
  pub current_rid_override_value : ℕ
  pub tlp_len_bytes : ℕ
  pub tlp_len_dwords : ℕ
  pub beat_count : ℕ
  pub current_tag : ℕ
  pub cpl_bytes_expected : ℕ
  pub cpl_bytes_received : ℕ
  pub timeout_counter : ℕ
  pub status : ℕ

-- The input signals of one cycle: the registers' fields, the PHY's id, the ATC's answer, and the
-- signals of the master port.
pub record Inputs : Type 0 where
  pub trigger : Bool
  pub direction : Bool
  pub no_snoop : Bool
  pub addr_type : ℕ
  pub bus_addr : ℕ
  pub length : ℕ
  pub offset : ℕ
  pub pasid_en : Bool
  pub pasid_val : ℕ
  pub privileged : Bool
  pub instruction : Bool
  pub rid_override_valid : Bool
  pub rid_override_value : ℕ
  pub phy_id : ℕ
  pub use_atc : Bool
  pub atc_hit : Bool
  pub atc_output_addr : ℕ
  pub source_ready : Bool
  pub sink_valid : Bool
  pub sink_err : Bool
  pub sink_last : Bool
  pub sink_end : Bool
  pub sink_dat : ℕ

-- What the engine drives on the master port.
pub record Source : Type 0 where
  pub valid : Bool
  pub first : Bool
  pub last : Bool
  pub we : Bool
  pub adr : ℕ
  pub len : ℕ
  pub dat : ℕ
  pub req_id : ℕ
  pub tag : ℕ
  pub attr : ℕ
  pub at : ℕ
  pub first_be : ℕ
  pub last_be : ℕ
  pub out_pasid_en : Bool
  pub out_pasid_val : ℕ
  pub out_privileged : Bool
  pub out_execute : Bool

-- What it drives on port A of the buffer.
pub record Access : Type 0 where
  pub a_adr : ℕ
  pub a_dat_w : ℕ
  pub a_we : Bool
  pub a_re : Bool

abbrev pub max_request_size : ℕ
max_request_size = 128

abbrev pub bytes_per_beat : ℕ
bytes_per_beat = 8

abbrev pub reset : Engine
reset = record {
  state = idle;
  current_addr = 0;
  current_offset = 0;
  remaining_len = 0;
  current_dir = false;
  current_ns = false;
  current_at = 0;
  current_pasid_en = false;
  current_pasid_val = 0;
  current_priv = false;
  current_exec = false;
  current_rid_override_valid = false;
  current_rid_override_value = 0;
  tlp_len_bytes = 0;
  tlp_len_dwords = 0;
  beat_count = 0;
  current_tag = 0;
  cpl_bytes_expected = 0;
  cpl_bytes_received = 0;
  timeout_counter = 0;
  status = 0;
}

unfoldable pub effective_addr : Engine → Inputs → ℕ
effective_addr s i = if i.use_atc && i.atc_hit then i.atc_output_addr else s.current_addr

unfoldable pub in_idle : Engine → Inputs → Engine
in_idle s i =
    if i.trigger
    then record s {
      current_addr = i.bus_addr;
      current_offset = slice i.offset 3 14;
      remaining_len = i.length;
      current_dir = i.direction;
      current_ns = i.no_snoop;
      current_at = i.addr_type;
      current_tag = 0;
      current_pasid_en = i.pasid_en;
      current_pasid_val = i.pasid_val;
      current_priv = i.privileged;
      current_exec = i.instruction;
      current_rid_override_valid = i.rid_override_valid;
      current_rid_override_value = i.rid_override_value;
      state = setup;
    }
    else s

unfoldable pub in_setup : Engine → Engine
in_setup s =
    let t = record s {
      beat_count = 0;
      cpl_bytes_received = 0;
      state = if s.current_dir then load_data else issue_rd;
    } in
    if ltb max_request_size s.remaining_len
    then record t { tlp_len_bytes = max_request_size; tlp_len_dwords = max_request_size / 4 }
    else record t {
      tlp_len_bytes = slice s.remaining_len 0 10;
      tlp_len_dwords = slice s.remaining_len 2 8;
    }

unfoldable pub in_issue_rd : Engine → Inputs → Engine
in_issue_rd s i =
    if i.source_ready
    then record s {
      current_tag = (s.current_tag + 1) % 2 ^ 8;
      cpl_bytes_expected = s.tlp_len_bytes;
      timeout_counter = 0;
      state = wait_cpl;
    }
    else s

-- What both paths do at the end of a TLP: `remaining_len - tlp_len_bytes` in 32 bits.
unfoldable pub next_tlp : Engine → Engine
next_tlp s =
    let t = record s {
      current_addr = (s.current_addr + s.tlp_len_bytes) % 2 ^ 64;
      remaining_len = (2 ^ 32 + s.remaining_len - s.tlp_len_bytes) % 2 ^ 32;
    } in
    if s.remaining_len == s.tlp_len_bytes
    then record t { status = 0; state = complete }
    else record t { state = setup }

unfoldable pub in_wait_cpl : Engine → Inputs → Engine
unfolding next_tlp
in_wait_cpl s i =
    let t = record s { timeout_counter = (s.timeout_counter + 1) % 2 ^ 24 } in
    if s.timeout_counter == 0xff_ffff
    then record t { status = 2; state = complete }
    else if i.sink_valid
    then (let u = record s { timeout_counter = 0 } in
        if i.sink_err
        then record u { status = 1; state = complete }
        else (let v = record u {
          current_offset = (s.current_offset + 1) % 2 ^ 14;
          cpl_bytes_received = (s.cpl_bytes_received + bytes_per_beat) % 2 ^ 12;
        } in
            if i.sink_last && i.sink_end then next_tlp v else v))
    else t

unfoldable pub beats_per_tlp : Engine → ℕ
beats_per_tlp s = (s.tlp_len_dwords + 1) / 2 % 2 ^ 8

unfoldable pub is_last_beat : Engine → Bool
unfolding beats_per_tlp
is_last_beat s = s.beat_count + 1 == beats_per_tlp s

unfoldable pub in_issue_wr : Engine → Inputs → Engine
unfolding is_last_beat beats_per_tlp next_tlp
in_issue_wr s i =
    if i.source_ready
    then (let t = record s { beat_count = (s.beat_count + 1) % 2 ^ 8 } in
        if is_last_beat s
        then next_tlp (record t { current_offset = (s.current_offset + beats_per_tlp s) % 2 ^ 14 })
        else record t { state = load_data })
    else s

unfoldable pub dispatch : State → Engine → Inputs → Engine
unfolding in_idle in_setup in_issue_rd in_wait_cpl in_issue_wr
dispatch idle s i = in_idle s i
dispatch setup s i = in_setup s
dispatch issue_rd s i = in_issue_rd s i
dispatch wait_cpl s i = in_wait_cpl s i
dispatch load_data s i = record s { state = issue_wr }
dispatch issue_wr s i = in_issue_wr s i
dispatch complete s i = record s { state = idle }

-- One clock cycle.
unfoldable pub step : Engine → Inputs → Engine
unfolding dispatch
step s i = dispatch s.state s i

-- The fields that are driven in every state.
abbrev pub quiet : Engine → Inputs → Source
quiet s i = record {
  valid = false;
  first = false;
  last = false;
  we = false;
  adr = 0;
  len = 0;
  dat = 0;
  req_id = if s.current_rid_override_valid then s.current_rid_override_value else i.phy_id;
  tag = s.current_tag;
  attr = b2n s.current_ns;
  at = s.current_at;
  first_be = 0xf;
  last_be = 0xf;
  out_pasid_en = s.current_pasid_en;
  out_pasid_val = s.current_pasid_val;
  out_privileged = s.current_priv;
  out_execute = s.current_exec;
}

-- The master port; `a_dat_r` is the read data of the buffer's port A.
unfoldable pub drive : State → Engine → Inputs → ℕ → Source
unfolding effective_addr is_last_beat beats_per_tlp
drive issue_rd s i a_dat_r = record (quiet s i) {
  valid = true;
  first = true;
  last = true;
  adr = effective_addr s i;
  len = s.tlp_len_dwords;
}
drive issue_wr s i a_dat_r = record (quiet s i) {
  valid = true;
  first = s.beat_count == 0;
  last = is_last_beat s;
  we = true;
  adr = effective_addr s i;
  len = s.tlp_len_dwords;
  dat = a_dat_r;
}
drive _ s i a_dat_r = quiet s i

unfoldable pub source : Engine → Inputs → ℕ → Source
unfolding drive
source s i a_dat_r = drive s.state s i a_dat_r

unfoldable pub stores : Engine → Inputs → Bool
stores s i = elim s.state [
  | wait_cpl ↦ not (s.timeout_counter == 0xff_ffff) && i.sink_valid && not i.sink_err
  | _ ↦ false
]

-- Port A of the buffer; its address has 11 bits.
unfoldable pub address_buffer : State → Engine → Inputs → Bool → Access
address_buffer load_data s i put = record {
  a_adr = (s.current_offset + s.beat_count) % 2 ^ 11;
  a_dat_w = 0;
  a_we = false;
  a_re = true;
}
address_buffer _ s i true = record {
  a_adr = s.current_offset % 2 ^ 11;
  a_dat_w = i.sink_dat;
  a_we = true;
  a_re = false;
}
address_buffer _ s i false = record { a_adr = 0; a_dat_w = 0; a_we = false; a_re = false }

unfoldable pub access : Engine → Inputs → Access
unfolding stores address_buffer
access s i = address_buffer s.state s i (stores s i)

unfoldable pub busy : State → Bool
busy idle = false
busy complete = false
busy _ = true

unfoldable pub status_we : State → Bool
status_we complete = true
status_we _ = false
