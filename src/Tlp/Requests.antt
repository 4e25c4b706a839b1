-- ===== src/Tlp/Requests.antt =====
-- The memory requests that the test benches build.
use bsa_pcie_exerciser.Prelude.{
  ℕ, ◌+◌, ◌*◌, ◌/◌, ◌%◌, ◌^◌, ◌<◌, ◌≡◌, ◌⊎◌, inl, inr, ◌∙◌, refl, ap, false, none, some, List, [],
  ◌∷◌, length, slice, arith,
}
use bsa_pcie_exerciser.Tlp.{
  Beat, pair, dwords, data_beats, shared_beats, request_dw0, request_dw1, aligned, first_enables,
  last_enables, memory_write_32, memory_read_32, memory_write_64, memory_read_64,
}
use bsa_pcie_exerciser.Tlp.Extract.{
  extract_address_from_mwr, extract_tlp_type, extract_attr_from_tlp, extract_tag_from_mrd,
  extract_requester_id_from_tlp,
}
use bsa_pcie_exerciser.Tlp.Fields.{Header, word, header-extracted}

-- The four memory requests, with default byte enables.
pub data Kind : Type 0 where
  write_32 : List ℕ → Kind
  read_32 : ℕ → Kind
  write_64 : List ℕ → Kind
  read_64 : ℕ → Kind

unfoldable pub build : Kind → ℕ → ℕ → ℕ → ℕ → ℕ → List Beat
unfolding memory_write_32 memory_read_32 memory_write_64 memory_read_64
build (write_32 data_bytes) address requester_id tag attr at =
    memory_write_32 address data_bytes requester_id tag attr at none none
build (read_32 length_dw) address requester_id tag attr at =
    memory_read_32 address length_dw requester_id tag attr at none none
build (write_64 data_bytes) address requester_id tag attr at =
    memory_write_64 address data_bytes requester_id tag
build (read_64 length_dw) address requester_id tag attr at =
    memory_read_64 address length_dw requester_id tag

unfoldable pub fmt_of : Kind → ℕ
fmt_of (write_32 data_bytes) = 2
fmt_of (read_32 length_dw) = 0
fmt_of (write_64 data_bytes) = 3
fmt_of (read_64 length_dw) = 1

-- The attributes that a request carries: those of 64 bits carry none.
unfoldable pub carried : Kind → ℕ → ℕ
carried (write_32 data_bytes) v = v
carried (read_32 length_dw) v = v
carried (write_64 data_bytes) v = 0
carried (read_64 length_dw) v = 0

unfoldable pub limit : Kind → ℕ
limit (write_32 data_bytes) = 2 ^ 32
limit (read_32 length_dw) = 2 ^ 32
limit (write_64 data_bytes) = 2 ^ 64
limit (read_64 length_dw) = 2 ^ 64

abbrev lead : ℕ → ℕ → ℕ → ℕ → ℕ → ℕ → Beat
lead fmt attr at requester_id tag count =
    pair (request_dw0 fmt attr at count)
      (request_dw1 requester_id tag (last_enables none count) (first_enables none)) 0xff

led :
    (fmt attr at requester_id tag count : ℕ)
    → Header fmt attr at requester_id tag (lead fmt attr at requester_id tag count)
led fmt attr at requester_id tag count = record {
  count = count;
  enables = last_enables none count * 2 ^ 4 + first_enables none;
  small = unfold last_enables first_enables in ground arith;
  low = unfold request_dw1 in omega arith;
}

-- The second beat has the address in its low DWORD, or in both.
shared :
    (odd dw2 : ℕ) (ds : List ℕ)
    → (x : ℕ) × ((rest : List Beat) × (shared_beats odd dw2 ds ≡ pair dw2 x 0xff ∷ rest))
unfolding shared_beats
shared odd dw2 [] = (0, ([], refl))
shared odd dw2 (d ∷ ds) = (d, (data_beats odd ds, refl))

address_32 :
    (fmt address x enables : ℕ) (b : Beat) (rest : List Beat)
    → (fmt ≡ 2) ⊎ (fmt ≡ 0)
    → slice b.dat 29 3 ≡ fmt
    → address < 2 ^ 32
    → extract_address_from_mwr (b ∷ (pair (aligned address) x enables ∷ rest))
      ≡ some (address / 4 * 4)
unfolding extract_address_from_mwr aligned
address_32 fmt address x enables b rest (inl e) h small = rw (h, e) (ap some (omega arith))
address_32 fmt address x enables b rest (inr e) h small = rw (h, e) (ap some (omega arith))

address_64 :
    (fmt address : ℕ) (b : Beat) (rest : List Beat)
    → (fmt ≡ 3) ⊎ (fmt ≡ 1)
    → slice b.dat 29 3 ≡ fmt
    → address < 2 ^ 64
    → extract_address_from_mwr (b ∷ (pair (slice address 32 32) (aligned address) 0xff ∷ rest))
      ≡ some (address / 4 * 4)
unfolding extract_address_from_mwr aligned
address_64 fmt address b rest (inl e) h small = rw (h, e) (ap some (omega arith))
address_64 fmt address b rest (inr e) h small = rw (h, e) (ap some (omega arith))

-- What the test bench reads out of the beats of a request.
pub record Extracted (kind : Kind) (address requester_id tag attr at : ℕ) (beats : List Beat)
    : Type 0 where
  pub type_there :
      extract_tlp_type beats ≡ record { fmt = fmt_of kind; tlp_type = 0; has_pasid = false }
  pub address_there : extract_address_from_mwr beats ≡ some (address / 4 * 4)
  pub attributes_there :
      extract_attr_from_tlp beats
      ≡ record { attr = carried kind attr % 2 ^ 2; at = carried kind at % 2 ^ 2 }
  pub tag_there : extract_tag_from_mrd beats ≡ some tag
  pub requester_there : extract_requester_id_from_tlp beats ≡ some requester_id

fmt_there :
    (fmt attr at requester_id tag : ℕ) (b : Beat)
    → fmt < 4
    → requester_id < 2 ^ 16
    → tag < 2 ^ 8
    → Header fmt attr at requester_id tag b
    → slice b.dat 29 3 ≡ fmt
unfolding request_dw0
fmt_there fmt attr at requester_id tag b f r t h = rw h.low (
    (word fmt (attr % 2 ^ 2) (at % 2 ^ 2) (h.count % 2 ^ 10) requester_id tag h.enables f
      (omega arith) (omega arith) (omega arith) r t h.small).7)

together :
    (kind : Kind) (address requester_id tag attr at : ℕ) (b : Beat) (rest : List Beat)
    → fmt_of kind < 4
    → requester_id < 2 ^ 16
    → tag < 2 ^ 8
    → Header (fmt_of kind) (carried kind attr) (carried kind at) requester_id tag b
    → extract_address_from_mwr (b ∷ rest) ≡ some (address / 4 * 4)
    → Extracted kind address requester_id tag attr at (b ∷ rest)
together kind address requester_id tag attr at b rest f r t h found =
    let (ty, at', tg, rq) =
      header-extracted (fmt_of kind) (carried kind attr) (carried kind at) requester_id tag b rest f
        r t h in
    record {
      type_there = ty;
      address_there = found;
      attributes_there = at';
      tag_there = tg;
      requester_there = rq;
    }

-- The test bench extracts from every memory request that it builds what it was built from: its
-- format, the address rounded down to a DWORD, the tag and the requester, and the attributes, which
-- are 0 in the 64-bit requests; the address fits the format.
pub build-Extracted :
    (kind : Kind) (address requester_id tag attr at : ℕ)
    → address < limit kind
    → requester_id < 2 ^ 16
    → tag < 2 ^ 8
    → Extracted kind address requester_id tag attr at (build kind address requester_id tag attr at)
unfolding build fmt_of carried limit memory_write_32 memory_read_32 memory_write_64 memory_read_64
build-Extracted (write_32 data_bytes) address requester_id tag attr at a r t =
    let h = led 2 attr at requester_id tag ((length data_bytes + 3) / 4) in
    let (x, (rest, e)) = shared 0x0f (aligned address) (dwords data_bytes) in
    let b = lead 2 attr at requester_id tag ((length data_bytes + 3) / 4) in
    together (write_32 data_bytes) address requester_id tag attr at b _ (omega arith) r t h (
      ap (λ l. extract_address_from_mwr (b ∷ l)) e
      ∙ address_32 2 address x 0xff b rest (inl refl)
          (fmt_there 2 attr at requester_id tag b (omega arith) r t h) a)
build-Extracted (read_32 length_dw) address requester_id tag attr at a r t =
    let h = led 0 attr at requester_id tag length_dw in
    together (read_32 length_dw) address requester_id tag attr at
      (lead 0 attr at requester_id tag length_dw) _ (omega arith) r t h
      (address_32 0 address 0 0x0f (lead 0 attr at requester_id tag length_dw) [] (inr refl)
        (fmt_there 0 attr at requester_id tag (lead 0 attr at requester_id tag length_dw)
          (omega arith) r t h)
        a)
build-Extracted (write_64 data_bytes) address requester_id tag attr at a r t =
    let h = led 3 0 0 requester_id tag ((length data_bytes + 3) / 4) in
    together (write_64 data_bytes) address requester_id tag attr at
      (lead 3 0 0 requester_id tag ((length data_bytes + 3) / 4)) _ (omega arith) r t h
      (address_64 3 address (lead 3 0 0 requester_id tag ((length data_bytes + 3) / 4)) _ (inl refl)
        (fmt_there 3 0 0 requester_id tag
          (lead 3 0 0 requester_id tag ((length data_bytes + 3) / 4)) (omega arith) r t h)
        a)
build-Extracted (read_64 length_dw) address requester_id tag attr at a r t =
    let h = led 1 0 0 requester_id tag length_dw in
    together (read_64 length_dw) address requester_id tag attr at
      (lead 1 0 0 requester_id tag length_dw) _ (omega arith) r t h
      (address_64 1 address (lead 1 0 0 requester_id tag length_dw) _ (inr refl)
        (fmt_there 1 0 0 requester_id tag (lead 1 0 0 requester_id tag length_dw) (omega arith) r t
          h)
        a)
