-- ===== src/Usb/Layouts.antt =====
-- The header words, src/bsa_pcie_exerciser/gateware/usb/monitor/layouts.py. `Cat` of fields within
-- their widths is the sum of the shifted fields; the slices cut a field to its width.
use bsa_pcie_exerciser.Prelude.{ℕ, ◌+◌, ◌*◌, ◌%◌, ◌^◌, Bool, b2n, bit}

abbrev pub header_word_count : ℕ
header_word_count = 4

unfoldable pub build_header_word0 : ℕ → ℕ → ℕ → ℕ → Bool → ℕ
build_header_word0 payload_length tlp_type direction timestamp_lo truncated =
    payload_length % 2 ^ 10
    + tlp_type % 2 ^ 4 * 2 ^ 10
    + direction * 2 ^ 14
    + b2n truncated * 2 ^ 15
    + header_word_count * 2 ^ 16
    + timestamp_lo * 2 ^ 32

unfoldable pub build_header_word1 : ℕ → ℕ → ℕ → ℕ → ℕ → ℕ
build_header_word1 timestamp_hi req_id tag first_be last_be =
    timestamp_hi
    + req_id % 2 ^ 16 * 2 ^ 32
    + tag % 2 ^ 8 * 2 ^ 48
    + first_be % 2 ^ 4 * 2 ^ 56
    + last_be % 2 ^ 4 * 2 ^ 60

unfoldable pub build_header_word2 : ℕ → ℕ
build_header_word2 address = address % 2 ^ 64

unfoldable pub build_header_word3_rx : Bool → ℕ → ℕ → ℕ → ℕ → ℕ → ℕ → ℕ
build_header_word3_rx we bar_hit attr at status cmp_id byte_count =
    b2n we
    + bar_hit % 2 ^ 3 * 2
    + attr % 2 ^ 2 * 2 ^ 4
    + at % 2 ^ 2 * 2 ^ 6
    + status % 2 ^ 3 * 2 ^ 29
    + cmp_id % 2 ^ 16 * 2 ^ 32
    + byte_count % 2 ^ 12 * 2 ^ 48

unfoldable pub build_header_word3_tx : Bool → ℕ → ℕ → Bool → ℕ → Bool → Bool → ℕ → ℕ → ℕ → ℕ
build_header_word3_tx we attr at pasid_valid pasid privileged execute status cmp_id byte_count =
    b2n we
    + attr % 2 ^ 2 * 2 ^ 4
    + at % 2 ^ 2 * 2 ^ 6
    + b2n pasid_valid * 2 ^ 8
    + pasid % 2 ^ 20 * 2 ^ 9
    + b2n privileged * 2 ^ 29
    + b2n execute * 2 ^ 30
    + b2n (bit status 2) * 2 ^ 31
    + cmp_id % 2 ^ 16 * 2 ^ 32
    + byte_count % 2 ^ 12 * 2 ^ 48
