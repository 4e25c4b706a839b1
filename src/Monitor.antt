-- ===== src/Monitor.antt =====
-- The transaction monitor, src/bsa_pcie_exerciser/gateware/monitor/txn_monitor.py: what it captures
-- of the request stream, and the buffer of captures.
pub mod Entry
pub mod Fifo
pub mod Log
pub mod Words
pub mod Reads
use bsa_pcie_exerciser.Prelude.{
  ℕ, ◌+◌, ◌*◌, ◌-◌, ◌%◌, ◌^◌, Bool, true, false, ◌&&◌, ◌||◌, not, ◌==◌, if◌then◌else◌, bit, slice,
  b2n,
}

-- The tap of one cycle, the controls, and the read strobe.
pub record Inputs : Type 0 where
  pub tap_valid : Bool
  pub tap_first : Bool
  pub tap_last : Bool
  pub tap_we : Bool
  pub tap_adr : ℕ
  pub tap_len : ℕ
  pub tap_dat : ℕ
  pub tap_first_be : ℕ
  pub tap_last_be : ℕ
  pub tap_bar_hit : ℕ
  pub tap_cfg_valid : Bool
  pub tap_cfg_we : Bool
  pub tap_cfg_type : Bool
  pub tap_cfg_bus_number : ℕ
  pub tap_cfg_device_no : ℕ
  pub tap_cfg_func : ℕ
  pub tap_cfg_ext_reg : ℕ
  pub tap_cfg_register_no : ℕ
  pub tap_cfg_first_be : ℕ
  pub tap_cfg_dat : ℕ
  pub enable : Bool
  pub clear : Bool
  pub fifo_read : Bool

-- The five words of a capture, 160 bits of memory.
pub record Capture : Type 0 where
  pub word0 : ℕ
  pub word1 : ℕ
  pub word2 : ℕ
  pub word3 : ℕ
  pub word4 : ℕ

-- The registers of the module. `rd_adr` is the address register of the synchronous read port.
pub record Monitor : Type 0 where
  pub mem : ℕ → Capture
  pub rd_adr : ℕ
  pub wr_ptr : ℕ
  pub rd_ptr : ℕ
  pub count : ℕ
  pub word_idx : ℕ
  pub overflow : Bool
  pub mem_base_addr : ℕ
  pub mem_beat_index : ℕ

abbrev pub blank : Capture
blank = record { word0 = 0; word1 = 0; word2 = 0; word3 = 0; word4 = 0 }

abbrev pub reset : Monitor
reset = record {
  mem = λ _. blank;
  rd_adr = 0;
  wr_ptr = 0;
  rd_ptr = 0;
  count = 0;
  word_idx = 0;
  overflow = false;
  mem_base_addr = 0;
  mem_beat_index = 0;
}

-- The address of the beat of a memory request.
unfoldable pub mem_addr : Monitor → Inputs → ℕ
mem_addr s i =
    ((if i.tap_first then i.tap_adr else s.mem_base_addr)
      + (if i.tap_first then 0 else s.mem_beat_index) * 8)
    % 2 ^ 64

-- The fields do not overlap, so that `|` is a sum.
unfoldable pub cfg_addr : Inputs → ℕ
cfg_addr i =
    i.tap_cfg_bus_number * 2 ^ 20
    + i.tap_cfg_device_no * 2 ^ 15
    + i.tap_cfg_func * 2 ^ 12
    + i.tap_cfg_ext_reg * 2 ^ 8
    + i.tap_cfg_register_no * 2 ^ 2

unfoldable pub mem_byte_en : Inputs → ℕ
mem_byte_en i =
    if i.tap_first && i.tap_last
    then (if i.tap_len == 1 then i.tap_first_be else i.tap_first_be + i.tap_last_be * 16)
    else if i.tap_first
    then i.tap_first_be + 0xf * 16
    else if i.tap_last
    then (if bit i.tap_len 0 then i.tap_last_be else 0xf + i.tap_last_be * 16)
    else 0xff

unfoldable pub byte_en : Inputs → ℕ
unfolding mem_byte_en
byte_en i = if i.tap_cfg_valid then i.tap_cfg_first_be else mem_byte_en i

unfoldable pub bytes_in_beat : ℕ → ℕ
bytes_in_beat be =
    b2n (bit be 0)
    + b2n (bit be 1)
    + b2n (bit be 2)
    + b2n (bit be 3)
    + b2n (bit be 4)
    + b2n (bit be 5)
    + b2n (bit be 6)
    + b2n (bit be 7)

unfoldable pub size_onehot : ℕ → ℕ
size_onehot n =
    if n == 1
    then 2 ^ 0
    else if n == 2
    then 2 ^ 1
    else if n == 4
    then 2 ^ 2
    else if n == 8
    then 2 ^ 3
    else 0

unfoldable pub cap_we : Inputs → Bool
cap_we i = if i.tap_cfg_valid then i.tap_cfg_we else i.tap_we

unfoldable pub cap_addr : Monitor → Inputs → ℕ
unfolding mem_addr cfg_addr
cap_addr s i = if i.tap_cfg_valid then cfg_addr i else mem_addr s i

unfoldable pub cap_dat : Inputs → ℕ
cap_dat i = if i.tap_cfg_valid then i.tap_cfg_dat else i.tap_dat

unfoldable pub word0_of : Inputs → ℕ
unfolding byte_en bytes_in_beat size_onehot cap_we
word0_of i =
    b2n (i.tap_cfg_valid && i.tap_cfg_type)
    + 2 * b2n (not (cap_we i))
    + 4 * b2n i.tap_cfg_valid
    + size_onehot (bytes_in_beat (byte_en i)) * 2 ^ 16

unfoldable pub capture_entry : Monitor → Inputs → Capture
unfolding word0_of cap_addr cap_dat
capture_entry s i = record {
  word0 = word0_of i;
  word1 = slice (cap_addr s i) 0 32;
  word2 = slice (cap_addr s i) 32 32;
  word3 = slice (cap_dat i) 0 32;
  word4 = slice (cap_dat i) 32 32;
}

-- Accesses to TXN_CTRL (BAR0, offset 0x44) are not captured.
unfoldable pub is_txn_ctrl : Inputs → Bool
is_txn_ctrl i = i.tap_valid && bit i.tap_bar_hit 0 && slice i.tap_adr 0 12 == 0x044

unfoldable pub txn_arriving : Inputs → Bool
unfolding is_txn_ctrl
txn_arriving i = i.enable && (i.tap_cfg_valid || i.tap_valid) && not (is_txn_ctrl i)

unfoldable pub fifo_empty : Monitor → Bool
fifo_empty s = s.count == 0 && s.word_idx == 0

unfoldable pub word_of : Capture → ℕ → ℕ
word_of e n =
    if n == 0
    then e.word0
    else if n == 1
    then e.word1
    else if n == 2
    then e.word2
    else if n == 3
    then e.word3
    else if n == 4
    then e.word4
    else 0xffff_ffff

unfoldable pub fifo_data : Monitor → ℕ
fifo_data s = word_of (s.mem s.rd_adr) s.word_idx

unfoldable pub next_ptr : ℕ → ℕ → ℕ
next_ptr fifo_depth p = if p == fifo_depth - 1 then 0 else p + 1

unfoldable pub write : (ℕ → Capture) → ℕ → Capture → ℕ → Capture
write mem p e k = if k == p then e else mem k

unfoldable pub track : Monitor → Inputs → Monitor
track s i =
    if i.clear
    then record s { mem_base_addr = 0; mem_beat_index = 0 }
    else if i.tap_valid && i.tap_first
    then record s { mem_base_addr = i.tap_adr; mem_beat_index = 0 }
    else if i.tap_valid
    then record s { mem_beat_index = (s.mem_beat_index + 1) % 2 ^ 16 }
    else s

module _ (fifo_depth : ℕ) where
  unfoldable pub do_capture : Monitor → Inputs → Bool
  unfolding txn_arriving
  do_capture s i = txn_arriving i && not (s.count == fifo_depth) && not s.overflow

  unfoldable pub txn_dropped : Monitor → Inputs → Bool
  unfolding txn_arriving
  txn_dropped s i = txn_arriving i && (s.count == fifo_depth || s.overflow)

  unfoldable pub advance : Monitor → Inputs → Bool
  unfolding fifo_empty
  advance s i = i.fifo_read && not (fifo_empty s)

  unfoldable pub txn_consumed : Monitor → Inputs → Bool
  unfolding advance
  txn_consumed s i = advance s i && s.word_idx == 4

  -- One clock cycle.
  unfoldable pub step : Monitor → Inputs → Monitor
  step s i =
      let t = track s i in
      let captures = do_capture s i in
      let consumes = txn_consumed s i in
      record t {
        mem = if captures then write s.mem s.wr_ptr (capture_entry s i) else s.mem;
        rd_adr = s.rd_ptr;
        overflow = if i.clear then false else if txn_dropped s i then true else s.overflow;
        wr_ptr = if i.clear then 0 else if captures then next_ptr fifo_depth s.wr_ptr else s.wr_ptr;
        rd_ptr = if i.clear then 0 else if consumes then next_ptr fifo_depth s.rd_ptr else s.rd_ptr;
        word_idx =
            if i.clear
            then 0
            else if consumes
            then 0
            else if advance s i
            then s.word_idx + 1
            else s.word_idx;
        count =
            if i.clear
            then 0
            else if captures && not consumes
            then s.count + 1
            else if not captures && consumes
            then s.count - 1
            else s.count;
      }
