-- ===== src/Tlp.antt =====
-- The TLP builder of the test benches, tbench/common/tlp_builder.py, the class TLPBuilder. Requester
-- IDs have 16 bits and tags 8, as documented there, so that `|` is a sum; bytes are numbers below 256.
pub mod Extract
pub mod Fields
pub mod Requests
pub mod Prefixed
pub mod Translated
use bsa_pcie_exerciser.Prelude.{
  ℕ, ◌+◌, ◌*◌, ◌/◌, ◌%◌, ◌^◌, Option, none, some, List, [], ◌∷◌, length, if◌then◌else◌, ltb, slice,
}

pub record Beat : Type 0 where
  pub dat : ℕ
  pub be : ℕ

abbrev pub ats_perm_r : ℕ
ats_perm_r = 0x01

abbrev pub ats_perm_w : ℕ
ats_perm_w = 0x02

abbrev pub ats_perm_priv : ℕ
ats_perm_priv = 0x04

abbrev pub ats_perm_rw : ℕ
ats_perm_rw = ats_perm_r + ats_perm_w

abbrev pub ats_perm_rw_priv : ℕ
ats_perm_rw_priv = ats_perm_r + ats_perm_w + ats_perm_priv

unfoldable pub dword_to_wire : ℕ → ℕ
dword_to_wire value =
    slice value 0 8 * 2 ^ 24
    + slice value 8 8 * 2 ^ 16
    + slice value 16 8 * 2 ^ 8
    + slice value 24 8

-- The DWORDs of a payload, padded with zeros, the first byte of each on top.
unfoldable pub dwords : List ℕ → List ℕ
dwords [] = []
dwords (a ∷ []) = (a * 2 ^ 24) ∷ []
dwords (a ∷ b ∷ []) = (a * 2 ^ 24 + b * 2 ^ 16) ∷ []
dwords (a ∷ b ∷ c ∷ []) = (a * 2 ^ 24 + b * 2 ^ 16 + c * 2 ^ 8) ∷ []
dwords (a ∷ b ∷ c ∷ d ∷ rest) = (a * 2 ^ 24 + b * 2 ^ 16 + c * 2 ^ 8 + d) ∷ dwords rest

-- Two DWORDs in a beat, the first one low.
abbrev pub pair : ℕ → ℕ → ℕ → Beat
pair low high enables = record { dat = low + high * 2 ^ 32; be = enables }

-- The beats of a payload; `odd` are the byte enables of a last beat with one DWORD.
unfoldable pub data_beats : ℕ → List ℕ → List Beat
data_beats odd [] = []
data_beats odd (a ∷ []) = pair a 0 odd ∷ []
data_beats odd (a ∷ b ∷ rest) = pair a b 0xff ∷ data_beats odd rest

-- The first DWORD shares the beat of the last header DWORD.
unfoldable pub shared_beats : ℕ → ℕ → List ℕ → List Beat
unfolding data_beats
shared_beats odd dw2 [] = pair dw2 0 0xff ∷ []
shared_beats odd dw2 (d ∷ rest) = pair dw2 d 0xff ∷ data_beats odd rest

unfoldable pub first_enables : Option ℕ → ℕ
first_enables none = 0xf
first_enables (some be) = be % 2 ^ 4

unfoldable pub last_enables : Option ℕ → ℕ → ℕ
last_enables none count = if ltb 1 count then 0xf else 0
last_enables (some be) count = be % 2 ^ 4

unfoldable pub request_dw0 : ℕ → ℕ → ℕ → ℕ → ℕ
request_dw0 fmt attr at count =
    fmt * 2 ^ 29 + attr % 2 ^ 2 * 2 ^ 12 + at % 2 ^ 2 * 2 ^ 10 + count % 2 ^ 10

unfoldable pub request_dw1 : ℕ → ℕ → ℕ → ℕ → ℕ
request_dw1 requester_id tag last_be first_be =
    requester_id * 2 ^ 16 + tag * 2 ^ 8 + last_be * 2 ^ 4 + first_be

-- `address & 0xFFFFFFFC`.
unfoldable pub aligned : ℕ → ℕ
aligned address = slice address 2 30 * 4

unfoldable pub memory_write_32 : ℕ → List ℕ → ℕ → ℕ → ℕ → ℕ → Option ℕ → Option ℕ → List Beat
unfolding dwords shared_beats request_dw0 request_dw1 aligned first_enables last_enables
memory_write_32 address data_bytes requester_id tag attr at first_be last_be =
    let count = (length data_bytes + 3) / 4 in
    pair (request_dw0 2 attr at count)
      (request_dw1 requester_id tag (last_enables last_be count) (first_enables first_be)) 0xff
    ∷ shared_beats 0x0f (aligned address) (dwords data_bytes)

unfoldable pub memory_read_32 : ℕ → ℕ → ℕ → ℕ → ℕ → ℕ → Option ℕ → Option ℕ → List Beat
unfolding request_dw0 request_dw1 aligned first_enables last_enables
memory_read_32 address length_dw requester_id tag attr at first_be last_be =
    pair (request_dw0 0 attr at length_dw)
      (request_dw1 requester_id tag (last_enables last_be length_dw) (first_enables first_be)) 0xff
    ∷ (pair (aligned address) 0 0x0f ∷ [])

-- A completion with data; the status has 3 bits.
unfoldable pub completion : ℕ → ℕ → ℕ → List ℕ → ℕ → ℕ → List Beat
unfolding dwords shared_beats
completion requester_id completer_id tag data_bytes status lower_addr =
    pair (2 * 2 ^ 29 + 10 * 2 ^ 24 + (length data_bytes + 3) / 4 % 2 ^ 10)
      (completer_id * 2 ^ 16 + status * 2 ^ 13 + length data_bytes % 2 ^ 12) 0xff
    ∷ shared_beats 0xff (requester_id * 2 ^ 16 + tag * 2 ^ 8 + lower_addr % 2 ^ 7)
        (dwords data_bytes)

-- The four bytes of a DWORD, the low one first.
unfoldable pub to_bytes : ℕ → List ℕ → List ℕ
to_bytes w rest = slice w 0 8 ∷ (slice w 8 8 ∷ (slice w 16 8 ∷ (slice w 24 8 ∷ rest)))

unfoldable pub ats_translation_completion : ℕ → ℕ → ℕ → ℕ → ℕ → ℕ → List Beat
unfolding completion to_bytes
ats_translation_completion requester_id completer_id tag translated_addr s_field permissions =
    let lower_dw =
      slice translated_addr 12 20 * 2 ^ 12 + s_field % 2 ^ 5 * 2 ^ 6 + permissions % 2 ^ 6 in
    completion requester_id completer_id tag
      (to_bytes lower_dw (to_bytes (slice translated_addr 32 32) [])) 0 0

unfoldable pub memory_write_64 : ℕ → List ℕ → ℕ → ℕ → List Beat
unfolding dwords data_beats request_dw0 request_dw1 aligned last_enables
memory_write_64 address data_bytes requester_id tag =
    let count = (length data_bytes + 3) / 4 in
    pair (request_dw0 3 0 0 count) (request_dw1 requester_id tag (last_enables none count) 0xf) 0xff
    ∷ (pair (slice address 32 32) (aligned address) 0xff ∷ data_beats 0x0f (dwords data_bytes))

unfoldable pub memory_read_64 : ℕ → ℕ → ℕ → ℕ → List Beat
unfolding request_dw0 request_dw1 aligned last_enables
memory_read_64 address length_dw requester_id tag =
    pair (request_dw0 1 0 0 length_dw)
      (request_dw1 requester_id tag (last_enables none length_dw) 0xf) 0xff
    ∷ (pair (slice address 32 32) (aligned address) 0xff ∷ [])

-- An address below 4 GiB stands in the last DWORD itself.
unfoldable pub ats_invalidation_request : ℕ → ℕ → ℕ → ℕ → ℕ → ℕ → ℕ → List Beat
ats_invalidation_request requester_id device_id itag address s_bit g_bit tag =
    let dw3 = if ltb address (2 ^ 32) then slice address 12 20 * 2 ^ 12 else slice address 32 32 in
    pair (1 * 2 ^ 29 + 18 * 2 ^ 24) (requester_id * 2 ^ 16 + tag * 2 ^ 8 + 1) 0xff
    ∷ (pair (device_id % 2 ^ 16 * 2 ^ 16 + itag % 2 ^ 5 * 2 ^ 11 + s_bit % 2 * 2 + g_bit % 2) dw3
          0xff
        ∷ [])

unfoldable pub config_write_type0 : ℕ → ℕ → ℕ → ℕ → ℕ → ℕ → ℕ → ℕ → List Beat
unfolding dword_to_wire
config_write_type0 dword_addr word requester_id tag bus device function first_be =
    let dw2 =
      bus % 2 ^ 8 * 2 ^ 24
      + device % 2 ^ 5 * 2 ^ 19
      + function % 2 ^ 3 * 2 ^ 16
      + slice dword_addr 6 4 * 2 ^ 8
      + dword_addr % 2 ^ 6 * 2 ^ 2 in
    pair (2 * 2 ^ 29 + 4 * 2 ^ 24 + 1) (requester_id * 2 ^ 16 + tag * 2 ^ 8 + first_be % 2 ^ 4) 0xff
    ∷ (pair dw2 (dword_to_wire word) 0xff ∷ [])
