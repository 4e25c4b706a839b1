-- ===== src/Usb/Capture.antt =====
-- The capture engine, src/bsa_pcie_exerciser/gateware/usb/monitor/capture.py.
pub mod Stats
pub mod Packet
use bsa_pcie_exerciser.Prelude.{
  ℕ, ◌+◌, ◌*◌, ◌%◌, ◌^◌, Bool, true, false, ◌&&◌, ◌||◌, not, ltb, if◌then◌else◌, slice, b2n,
}
use bsa_pcie_exerciser.Usb.Layouts.{
  build_header_word0, build_header_word1, build_header_word2, build_header_word3_rx,
  build_header_word3_tx,
}

-- The two taps, the controls and the readiness of the two FIFOs, in one cycle.
pub record Inputs : Type 0 where
  pub enable : Bool
  pub timestamp : ℕ
  pub clear_stats : Bool
  pub tap_req_valid : Bool
  pub tap_req_ready : Bool
  pub tap_req_first : Bool
  pub tap_req_last : Bool
  pub tap_req_we : Bool
  pub tap_req_adr : ℕ
  pub tap_req_len : ℕ
  pub tap_req_req_id : ℕ
  pub tap_req_tag : ℕ
  pub tap_req_dat : ℕ
  pub tap_req_first_be : ℕ
  pub tap_req_last_be : ℕ
  pub tap_req_attr : ℕ
  pub tap_req_at : ℕ
  pub tap_req_bar_hit : ℕ
  pub tap_req_pasid_valid : Bool
  pub tap_req_pasid : ℕ
  pub tap_req_privileged : Bool
  pub tap_req_execute : Bool
  pub tap_cpl_valid : Bool
  pub tap_cpl_ready : Bool
  pub tap_cpl_first : Bool
  pub tap_cpl_last : Bool
  pub tap_cpl_adr : ℕ
  pub tap_cpl_len : ℕ
  pub tap_cpl_req_id : ℕ
  pub tap_cpl_tag : ℕ
  pub tap_cpl_dat : ℕ
  pub tap_cpl_status : ℕ
  pub tap_cpl_cmp_id : ℕ
  pub tap_cpl_byte_count : ℕ
  pub header_ready : Bool
  pub payload_ready : Bool

-- The header fields of a beat, and of the packet that is under way.
pub record Fields : Type 0 where
  pub tlp_type : ℕ
  pub timestamp : ℕ
  pub req_id : ℕ
  pub tag : ℕ
  pub first_be : ℕ
  pub last_be : ℕ
  pub adr : ℕ
  pub we : Bool
  pub bar_hit : ℕ
  pub attr : ℕ
  pub at : ℕ
  pub pasid_valid : Bool
  pub pasid : ℕ
  pub privileged : Bool
  pub execute : Bool
  pub status : ℕ
  pub cmp_id : ℕ
  pub byte_count : ℕ
  pub len : ℕ
  pub has_payload : Bool

-- The beat that the mux selects.
pub record Tap : Type 0 where
  pub valid : Bool
  pub first : Bool
  pub last : Bool
  pub dat : ℕ
  pub fields : Fields

-- The registers of the module.
pub record Capture : Type 0 where
  pub latched : Fields
  pub dropping : Bool
  pub payload_truncated : Bool
  pub packets_captured : ℕ
  pub packets_dropped : ℕ
  pub packets_truncated : ℕ

abbrev pub blank : Fields
blank = record {
  tlp_type = 0;
  timestamp = 0;
  req_id = 0;
  tag = 0;
  first_be = 0;
  last_be = 0;
  adr = 0;
  we = false;
  bar_hit = 0;
  attr = 0;
  at = 0;
  pasid_valid = false;
  pasid = 0;
  privileged = false;
  execute = false;
  status = 0;
  cmp_id = 0;
  byte_count = 0;
  len = 0;
  has_payload = false;
}

abbrev pub reset : Capture
reset = record {
  latched = blank;
  dropping = false;
  payload_truncated = false;
  packets_captured = 0;
  packets_dropped = 0;
  packets_truncated = 0;
}

unfoldable pub req_active : Inputs → Bool
req_active i = i.tap_req_valid && i.tap_req_ready

unfoldable pub cpl_active : Inputs → Bool
cpl_active i = i.tap_cpl_valid && i.tap_cpl_ready

-- TLP types MWr (1) and MRd (0).
unfoldable pub request_tap : Inputs → Tap
request_tap i = record {
  valid = true;
  first = i.tap_req_first;
  last = i.tap_req_last;
  dat = i.tap_req_dat;
  fields = record {
    tlp_type = if i.tap_req_we then 1 else 0;
    timestamp = i.timestamp;
    req_id = i.tap_req_req_id;
    tag = i.tap_req_tag;
    first_be = i.tap_req_first_be;
    last_be = i.tap_req_last_be;
    adr = i.tap_req_adr;
    we = i.tap_req_we;
    bar_hit = i.tap_req_bar_hit;
    attr = i.tap_req_attr;
    at = i.tap_req_at;
    pasid_valid = i.tap_req_pasid_valid;
    pasid = i.tap_req_pasid;
    privileged = i.tap_req_privileged;
    execute = i.tap_req_execute;
    status = 0;
    cmp_id = 0;
    byte_count = 0;
    len = i.tap_req_len;
    has_payload = i.tap_req_we;
  };
}

-- TLP types CplD (3) and Cpl (2); with no completion on the tap the type is 0 and nothing is valid.
unfoldable pub completion_tap : Inputs → Tap
unfolding cpl_active
completion_tap i = record {
  valid = cpl_active i;
  first = i.tap_cpl_first;
  last = i.tap_cpl_last;
  dat = i.tap_cpl_dat;
  fields = record {
    tlp_type = if cpl_active i then (if ltb 0 i.tap_cpl_len then 3 else 2) else 0;
    timestamp = i.timestamp;
    req_id = i.tap_cpl_req_id;
    tag = i.tap_cpl_tag;
    first_be = 0;
    last_be = 0;
    adr = i.tap_cpl_adr;
    we = false;
    bar_hit = 0;
    attr = 0;
    at = 0;
    pasid_valid = false;
    pasid = 0;
    privileged = false;
    execute = false;
    status = i.tap_cpl_status;
    cmp_id = i.tap_cpl_cmp_id;
    byte_count = i.tap_cpl_byte_count;
    len = i.tap_cpl_len;
    has_payload = cpl_active i && ltb 0 i.tap_cpl_len;
  };
}

-- The mux: a request has priority.
unfoldable pub tap_of : Inputs → Tap
unfolding req_active request_tap completion_tap
tap_of i = if req_active i then request_tap i else completion_tap i

-- The rest of the module, over the beat that the mux selected.
module _ (i : Inputs) (t : Tap) where
  unfoldable pub first_beat : Bool
  first_beat = i.enable && t.valid && t.first

  unfoldable pub last_beat : Bool
  last_beat = i.enable && t.valid && t.last

  unfoldable pub any_beat : Bool
  any_beat = i.enable && t.valid

  unfoldable pub payload_valid : Capture → Bool
  unfolding first_beat any_beat
  payload_valid s =
      any_beat && t.fields.has_payload && not s.dropping && not (first_beat && not i.header_ready)

  unfoldable pub payload_write_failed : Capture → Bool
  unfolding payload_valid
  payload_write_failed s = payload_valid s && not i.payload_ready

  unfoldable pub final_truncated : Capture → Bool
  unfolding payload_write_failed
  final_truncated s = s.payload_truncated || payload_write_failed s

  -- The fields and the length of the header: of this beat for a packet of one beat, else latched.
  unfoldable pub use_fields : Capture → Fields
  unfolding first_beat
  use_fields s = if first_beat && t.last then t.fields else s.latched

  unfoldable pub header_valid : Capture → Bool
  unfolding last_beat
  header_valid s = last_beat && not s.dropping

  unfoldable pub single_beat_drop : Bool
  unfolding first_beat
  single_beat_drop = first_beat && t.last && not i.header_ready

  -- The register updates of a cycle, in the order of the source: a later one wins.
  unfoldable pub on_first : Capture → Capture → Capture
  unfolding first_beat payload_write_failed
  on_first s u =
      if not first_beat
      then u
      else if i.header_ready
      then record u {
        dropping = false;
        payload_truncated = payload_write_failed s;
        latched = t.fields;
      }
      else record u { dropping = if t.last then u.dropping else true }

  unfoldable pub on_beat : Capture → Capture → Capture
  unfolding any_beat first_beat payload_write_failed
  on_beat s u =
      if any_beat && not first_beat && not s.dropping && payload_write_failed s
      then record u { payload_truncated = true }
      else u

  unfoldable pub on_last : Capture → Capture → Capture
  unfolding last_beat single_beat_drop final_truncated
  on_last s u =
      if not last_beat
      then u
      else if s.dropping || single_beat_drop
      then record u { packets_dropped = (s.packets_dropped + 1) % 2 ^ 32; dropping = false }
      else record u {
        packets_captured = (s.packets_captured + 1) % 2 ^ 32;
        packets_truncated =
            if final_truncated s then (s.packets_truncated + 1) % 2 ^ 32 else u.packets_truncated;
      }

  unfoldable pub on_clear : Capture → Capture
  on_clear u =
      if i.clear_stats
      then record u { packets_captured = 0; packets_dropped = 0; packets_truncated = 0 }
      else u

-- The four header words; `tx` is the direction.
unfoldable pub header_words : Bool → Fields → Bool → ℕ × ℕ × ℕ × ℕ
header_words tx f truncated = (
  build_header_word0 (if f.has_payload then f.len else 0) f.tlp_type (b2n tx)
      (slice f.timestamp 0 32) truncated,
  build_header_word1 (slice f.timestamp 32 32) f.req_id f.tag f.first_be f.last_be,
  build_header_word2 f.adr,
  (if tx
      then build_header_word3_tx f.we f.attr f.at f.pasid_valid f.pasid f.privileged f.execute
          f.status f.cmp_id f.byte_count
      else build_header_word3_rx f.we f.bar_hit f.attr f.at f.status f.cmp_id f.byte_count),
)

-- The header that is presented on the last beat.
unfoldable pub full_header : Bool → Capture → Inputs → ℕ × ℕ × ℕ × ℕ
unfolding header_words use_fields final_truncated
full_header tx s i = header_words tx (use_fields i (tap_of i) s) (final_truncated i (tap_of i) s)

-- One clock cycle.
unfoldable pub step : Capture → Inputs → Capture
unfolding on_first on_beat on_last on_clear
step s i = let t = tap_of i in on_clear i t (on_last i t s (on_beat i t s (on_first i t s s)))
