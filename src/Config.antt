-- ===== src/Config.antt =====
-- The extended configuration space, src/bsa_pcie_exerciser/gateware/config/pcie_config.py, the class
-- BSAConfigSpace.
pub mod Chain
pub mod Inject
use bsa_pcie_exerciser.Prelude.{
  ℕ, zero, suc, ◌+◌, ◌*◌, ◌%◌, ◌^◌, Bool, true, false, ◌&&◌, not, ◌==◌, if◌then◌else◌, bit, slice,
  put,
}
use bsa_pcie_exerciser.Prelude.Memory.{lane}

pub data State : Type 0 where
  idle respond : State

-- The registers of the module.
pub record Config : Type 0 where
  pub state : State
  pub ats_ctrl : ℕ
  pub pasid_ctrl : ℕ
  pub acs_ctrl : ℕ
  pub dpc_ctrl : ℕ
  pub dpc_status : ℕ
  pub dvsec_ctrl : ℕ
  pub inject_error_pulse : Bool
  pub latched_req_id : ℕ
  pub latched_tag : ℕ
  pub latched_we : Bool
  pub latched_addr : ℕ
  pub latched_wdata : ℕ

-- A request of the depacketizer, the readiness of the completion port, and the PHY's identity.
pub record Inputs : Type 0 where
  pub valid : Bool
  pub we : Bool
  pub req_id : ℕ
  pub tag : ℕ
  pub register_no : ℕ
  pub ext_reg : ℕ
  pub first_be : ℕ
  pub dat : ℕ
  pub comp_ready : Bool
  pub phy_id : ℕ

-- The completion, as far as the module sets it.
pub record Response : Type 0 where
  pub tag : ℕ
  pub cmp_id : ℕ
  pub req_id : ℕ
  pub len : ℕ
  pub byte_count : ℕ
  pub dat : ℕ

abbrev pub reset : Config
reset = record {
  state = idle;
  ats_ctrl = 0;
  pasid_ctrl = 0;
  acs_ctrl = 0;
  dpc_ctrl = 0;
  dpc_status = 0;
  dvsec_ctrl = 0;
  inject_error_pulse = false;
  latched_req_id = 0;
  latched_tag = 0;
  latched_we = false;
  latched_addr = 0;
  latched_wdata = 0;
}

abbrev pub user_ext_cfg_dword_base : ℕ
user_ext_cfg_dword_base = 0x6b

abbrev pub ecid_acs : ℕ
ecid_acs = 0x000d

abbrev pub ecid_ats : ℕ
ecid_ats = 0x000f

abbrev pub ecid_pasid : ℕ
ecid_pasid = 0x001b

abbrev pub ecid_dpc : ℕ
ecid_dpc = 0x001d

abbrev pub ecid_dvsec : ℕ
ecid_dvsec = 0x0023

unfoldable pub ecap_header : ℕ → ℕ → ℕ → ℕ
ecap_header ecid version next_ptr =
    ecid % 2 ^ 16 + version % 2 ^ 4 * 2 ^ 16 + next_ptr % 2 ^ 12 * 2 ^ 20

-- Vendor, revision and length.
abbrev pub dvsec_header1 : ℕ
dvsec_header1 = 0x13b5 + 0 * 2 ^ 16 + 0xc * 2 ^ 20

-- The register number has 6 bits and its extension 4.
unfoldable pub dw_addr : Inputs → ℕ
dw_addr i = i.register_no % 2 ^ 6 + i.ext_reg % 2 ^ 4 * 2 ^ 6

-- `(old & ~be_mask) | (dat & be_mask)`, byte by byte.
unfoldable pub masked : Inputs → ℕ → ℕ
unfolding lane
masked i old =
    lane i.first_be i.dat old 0
    + lane i.first_be i.dat old 1 * 2 ^ 8
    + lane i.first_be i.dat old 2 * 2 ^ 16
    + lane i.first_be i.dat old 3 * 2 ^ 24

-- `x & ~m` on the bits below `width`.
unfoldable pub and_not : ℕ → ℕ → ℕ → ℕ
and_not zero x m = 0
and_not (suc width) x m =
    let low = and_not width x m in if bit x width && not (bit m width) then low + 2 ^ width else low

-- The FSM with what it latches; the address register has 9 bits.
unfoldable pub dispatch : State → Config → Inputs → Config
unfolding dw_addr
dispatch idle s i =
    if i.valid
    then record s {
      latched_req_id = i.req_id;
      latched_tag = i.tag;
      latched_we = i.we;
      latched_addr = dw_addr i % 2 ^ 9;
      latched_wdata = i.dat % 2 ^ 32;
      state = respond;
    }
    else s
dispatch respond s i = if i.comp_ready then record s { state = idle } else s

unfoldable pub takes : State → Inputs → Bool
takes idle i = i.valid && i.we
takes respond i = false

-- The assignments after the write, the later ones last; `s` are the registers before the cycle.
unfoldable pub fixed : ℕ → Config → Inputs → Config → Config
fixed max_pasid_bits s i t =
    let dvsec = put t.dvsec_ctrl 0 16 1 in
    let status = put (put t.dpc_status 0 1 1) 1 2 (if bit s.dvsec_ctrl 31 then 2 else 1) in
    record t {
      pasid_ctrl = put t.pasid_ctrl 8 5 max_pasid_bits;
      dvsec_ctrl = if bit s.dvsec_ctrl 17 then put dvsec 17 1 0 else dvsec;
      inject_error_pulse = bit s.dvsec_ctrl 17;
      dpc_status =
          if s.inject_error_pulse && not (slice s.dpc_ctrl 16 2 == 0)
          then put status 16 16 i.phy_id
          else t.dpc_status;
    }

module _ (base_dword : ℕ) where
  -- The read mux.
  unfoldable pub read_data : Config → ℕ → ℕ
  unfolding ecap_header
  read_data s a =
      if a == base_dword
      then ecap_header ecid_ats 1 ((base_dword + 2) * 4)
      else if a == base_dword + 1
      then s.ats_ctrl
      else if a == base_dword + 2
      then ecap_header ecid_pasid 1 ((base_dword + 4) * 4)
      else if a == base_dword + 3
      then s.pasid_ctrl
      else if a == base_dword + 4
      then ecap_header ecid_acs 1 ((base_dword + 6) * 4)
      else if a == base_dword + 5
      then s.acs_ctrl
      else if a == base_dword + 6
      then ecap_header ecid_dpc 1 ((base_dword + 9) * 4)
      else if a == base_dword + 7
      then s.dpc_ctrl
      else if a == base_dword + 8
      then s.dpc_status
      else if a == base_dword + 9
      then ecap_header ecid_dvsec 1 0
      else if a == base_dword + 10
      then dvsec_header1
      else if a == base_dword + 11
      then s.dvsec_ctrl
      else 0

  -- A write to the register at an address.
  unfoldable pub write : ℕ → Inputs → Config → Config
  write a i t =
      if a == base_dword + 1
      then record t { ats_ctrl = masked i t.ats_ctrl }
      else if a == base_dword + 3
      then record t { pasid_ctrl = masked i t.pasid_ctrl }
      else if a == base_dword + 5
      then record t { acs_ctrl = masked i t.acs_ctrl }
      else if a == base_dword + 7
      then record t { dpc_ctrl = masked i t.dpc_ctrl }
      else if a == base_dword + 8
      then record t { dpc_status = and_not 32 t.dpc_status (masked i 0) }
      else if a == base_dword + 11
      then record t { dvsec_ctrl = masked i t.dvsec_ctrl }
      else t

  -- One clock cycle.
  unfoldable pub step : ℕ → Config → Inputs → Config
  unfolding dispatch takes write fixed dw_addr
  step max_pasid_bits s i =
      let t = dispatch s.state s i in
      fixed max_pasid_bits s i (if takes s.state i then write (dw_addr i) i t else t)

  -- The completion while the FSM responds.
  unfoldable pub response : Config → Inputs → Response
  unfolding read_data
  response s i = record {
    tag = s.latched_tag;
    cmp_id = i.phy_id;
    req_id = s.latched_req_id;
    len = if s.latched_we then 0 else 1;
    byte_count = if s.latched_we then 0 else 4;
    dat = if s.latched_we then 0 else read_data s s.latched_addr;
  }

-- The control signals to the other modules.
pub record Controls : Type 0 where
  pub inject_on_dma : Bool
  pub poison_mode : Bool
  pub error_code : ℕ
  pub error_fatal : Bool
  pub ats_enable : Bool

unfoldable pub controls : Config → Controls
controls s = record {
  inject_on_dma = bit s.dvsec_ctrl 16;
  poison_mode = bit s.dvsec_ctrl 18;
  error_code = slice s.dvsec_ctrl 20 11;
  error_fatal = bit s.dvsec_ctrl 31;
  ats_enable = bit s.ats_ctrl 31;
}
