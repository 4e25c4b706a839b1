-- ===== src/Pasid.antt =====
-- The PASID prefix injector, src/bsa_pcie_exerciser/gateware/pasid/prefix_injector.py, the class
-- PASIDPrefixInjector.
pub mod Tokens
pub mod Packets
use bsa_pcie_exerciser.Prelude.{
  ℕ, ◌+◌, ◌*◌, ◌%◌, ◌^◌, Bool, true, false, ◌&&◌, not, ◌==◌, if◌then◌else◌, slice, b2n,
}

pub data State : Type 0 where
  idle decide passthrough shift flush : State

-- A beat of the stream from the packetizer, with the PASID fields that travel with it.
pub record Beat : Type 0 where
  pub first : Bool
  pub last : Bool
  pub dat : ℕ
  pub be : ℕ
  pub pasid_en : Bool
  pub pasid_val : ℕ
  pub privileged : Bool
  pub execute : Bool

pub record Inputs : Type 0 where
  pub sink_valid : Bool
  pub sink : Beat
  pub source_ready : Bool

-- A beat of the stream to the PHY.
pub record Output : Type 0 where
  pub valid : Bool
  pub first : Bool
  pub last : Bool
  pub dat : ℕ
  pub be : ℕ

-- The registers of the module.
pub record Injector : Type 0 where
  pub state : State
  pub captured_pasid_en : Bool
  pub captured_prefix : ℕ
  pub buffered_first_dat : ℕ
  pub buffered_first_be : ℕ
  pub buffered_first_last : Bool
  pub buffered_dword : ℕ
  pub buffered_be : ℕ
  pub buffered_valid : Bool

abbrev pub reset : Injector
reset = record {
  state = idle;
  captured_pasid_en = false;
  captured_prefix = 0;
  buffered_first_dat = 0;
  buffered_first_be = 0;
  buffered_first_last = false;
  buffered_dword = 0;
  buffered_be = 0;
  buffered_valid = false;
}

-- The fields do not overlap, so that `|` is a sum.
unfoldable pub prefix_dword : Beat → ℕ
prefix_dword b =
    0x91 * 2 ^ 24 + b2n b.privileged * 2 ^ 21 + b2n b.execute * 2 ^ 20 + b.pasid_val % 2 ^ 20

unfoldable pub in_idle : Injector → Inputs → Injector
unfolding prefix_dword
in_idle s i =
    if i.sink_valid && i.sink.first
    then record s {
      captured_pasid_en = i.sink.pasid_en;
      captured_prefix = prefix_dword i.sink;
      buffered_first_dat = i.sink.dat;
      buffered_first_be = i.sink.be;
      buffered_first_last = i.sink.last;
      state = decide;
    }
    else s

unfoldable pub in_decide : Injector → Inputs → Injector
in_decide s i =
    if s.captured_pasid_en
    then record s {
      buffered_dword = slice s.buffered_first_dat 32 32;
      buffered_be = slice s.buffered_first_be 4 4;
      buffered_valid = true;
      state = if i.source_ready then (if s.buffered_first_last then flush else shift) else decide;
    }
    else record s {
      state =
          if i.source_ready then (if s.buffered_first_last then idle else passthrough) else decide;
    }

unfoldable pub in_passthrough : Injector → Inputs → Injector
in_passthrough s i =
    if i.sink_valid && i.sink.last && i.source_ready then record s { state = idle } else s

unfoldable pub in_shift : Injector → Inputs → Injector
in_shift s i =
    if not (i.sink_valid && i.source_ready)
    then s
    else let t = record s {
      buffered_dword = slice i.sink.dat 32 32;
      buffered_be = slice i.sink.be 4 4;
    } in
      if not i.sink.last
      then t
      else if slice i.sink.be 4 4 == 0
      then record t { buffered_valid = false; state = idle }
      else record t { state = flush }

unfoldable pub in_flush : Injector → Inputs → Injector
in_flush s i = if i.source_ready then record s { buffered_valid = false; state = idle } else s

unfoldable pub dispatch : State → Injector → Inputs → Injector
unfolding in_idle in_decide in_passthrough in_shift in_flush
dispatch idle s i = in_idle s i
dispatch decide s i = in_decide s i
dispatch passthrough s i = in_passthrough s i
dispatch shift s i = in_shift s i
dispatch flush s i = in_flush s i

-- One clock cycle.
unfoldable pub step : Injector → Inputs → Injector
unfolding dispatch
step s i = dispatch s.state s i

unfoldable pub ready_in : State → Inputs → Bool
ready_in idle i = true
ready_in decide i = false
ready_in passthrough i = i.source_ready
ready_in shift i = i.source_ready
ready_in flush i = false

unfoldable pub sink_ready : Injector → Inputs → Bool
unfolding ready_in
sink_ready s i = ready_in s.state i

-- The output in each state.
unfoldable pub drive : State → Injector → Inputs → Output
drive idle s i = record { valid = false; first = false; last = false; dat = 0; be = 0 }
drive decide s i =
    if s.captured_pasid_en
    then record {
      valid = true;
      first = true;
      last = false;
      dat = s.captured_prefix + slice s.buffered_first_dat 0 32 * 2 ^ 32;
      be = 0xff;
    }
    else record {
      valid = true;
      first = true;
      last = s.buffered_first_last;
      dat = s.buffered_first_dat;
      be = s.buffered_first_be;
    }
drive passthrough s i = record {
  valid = i.sink_valid;
  first = i.sink.first;
  last = i.sink.last;
  dat = i.sink.dat;
  be = i.sink.be;
}
drive shift s i = record {
  valid = i.sink_valid;
  first = false;
  last = i.sink_valid && i.source_ready && i.sink.last && slice i.sink.be 4 4 == 0;
  dat = s.buffered_dword + slice i.sink.dat 0 32 * 2 ^ 32;
  be = s.buffered_be + slice i.sink.be 0 4 * 2 ^ 4;
}
drive flush s i = record {
  valid = s.buffered_valid;
  first = false;
  last = true;
  dat = s.buffered_dword;
  be = s.buffered_be;
}

unfoldable pub source : Injector → Inputs → Output
unfolding drive
source s i = drive s.state s i
