-- ===== src/Msix/Host.antt =====
-- The host's accesses to the table.
use bsa_pcie_exerciser.Prelude.{
  ℕ, ◌%◌, ◌^◌, ◌≡◌, ◌≢◌, ◌∙◌, Bool, true, false, ◌==◌, if◌then◌else◌, slice, arith,
}
use bsa_pcie_exerciser.Msix.Table.{
  Table, Inputs, step, idle, write, read_addr, complete, write_be, write_data, cpl_data, memory,
  dispatch, internal, a_adr, a_we, in_idle, in_write,
}
use bsa_pcie_exerciser.Prelude.Memory.{store, merge}
use bsa_pcie_exerciser.Msix.Words.{half, dword, Writes, Reads, store_none, store_dword}

-- One cycle of the table: the host's beat, and what the controller drives.
pub record Cycle : Type 0 where
  pub beat : Inputs
  pub read_en : Bool
  pub vector_num : ℕ

unfoldable pub tick : Table → Cycle → Table
tick s c = step s c.beat c.read_en c.vector_num

-- The steps of a write and a read: what each leaves of the state, and the words.
step_write :
    (s : Table) (c : Cycle) (adr : ℕ)
    → s.state ≡ idle
    → Writes c.beat
    → ((tick s c).state ≡ write)
      × (dword (tick s c).mem adr ≡ (
          if slice adr 2 13 == slice c.beat.adr 2 13
          then slice c.beat.dat 0 32
          else dword s.mem adr))
unfolding tick step memory dispatch internal a_adr a_we in_idle
step_write s c adr h w = ground (arith, store_dword c.beat s.mem adr w)

step_gap :
    (s : Table) (c : Cycle) (adr : ℕ)
    → s.state ≡ write
    → c.beat.valid ≡ false
    → ((tick s c).state ≡ idle) × (dword (tick s c).mem adr ≡ dword s.mem adr)
unfolding tick step memory dispatch internal a_adr a_we in_write
step_gap s c adr h v = ground (arith, store_none s.qword_idx (write_data c.beat) s.mem adr)

step_ask :
    (s : Table) (c : Cycle)
    → s.state ≡ idle
    → Reads c.beat
    → ((tick s c).state ≡ read_addr)
      × ((tick s c).qword_idx ≡ slice c.beat.adr 3 12)
      × ((tick s c).req_len ≡ 1)
      × ((tick s c).req_adr ≡ c.beat.adr % 2 ^ 32)
      × (dword (tick s c).mem c.beat.adr ≡ dword s.mem c.beat.adr)
unfolding tick step memory dispatch internal a_adr a_we in_idle
step_ask s c h r =
    ground (arith, store_none (slice c.beat.adr 3 12) (write_data c.beat) s.mem c.beat.adr)

step_fetch :
    (s : Table) (c d : Cycle)
    → s.state ≡ read_addr
    → ((tick (tick s c) d).state ≡ complete)
      × ((tick (tick s c) d).read_word ≡ s.mem s.qword_idx)
      × ((tick (tick s c) d).req_len ≡ s.req_len)
      × ((tick (tick s c) d).req_adr ≡ s.req_adr)
unfolding tick step memory dispatch internal a_adr a_we
step_fetch s c d h = ground arith

answer :
    (s t : Table) (adr : ℕ)
    → t.read_word ≡ s.mem s.qword_idx
    → s.qword_idx ≡ slice adr 3 12
    → t.req_len ≡ 1
    → t.req_adr ≡ adr % 2 ^ 32
    → cpl_data t ≡ dword s.mem adr
unfolding cpl_data dword half
answer s t adr r q l a = ground arith

-- A host that writes one whole DWORD to a table at rest and, after a cycle without a beat, reads
-- one DWORD gets a completion two cycles later: with the DWORD written, if it reads the same one
-- (the address bits 2 to 14), and with the DWORD that the table held, if it reads another one,
-- also the other half of the same QWORD; whatever the controller does meanwhile.
pub write-read :
    (s : Table) (w g r c d : Cycle)
    → s.state ≡ idle
    → Writes w.beat
    → g.beat.valid ≡ false
    → Reads r.beat
    → let t = tick (tick (tick (tick (tick s w) g) r) c) d in
      (t.state ≡ complete)
      × (cpl_data t ≡ (
          if slice r.beat.adr 2 13 == slice w.beat.adr 2 13
          then slice w.beat.dat 0 32
          else dword s.mem r.beat.adr))
write-read s w g r c d h ws gap rs =
    let (st1, m1) = step_write s w r.beat.adr h ws in
    let (st2, m2) = step_gap (tick s w) g r.beat.adr st1 gap in
    let (st3, q, l, a, m3) = step_ask (tick (tick s w) g) r st2 rs in
    let u = tick (tick (tick s w) g) r in
    let (st5, word, l5, a5) = step_fetch u c d st3 in
    (st5, answer u (tick (tick u c) d) r.beat.adr word q (l5 ∙ l) (a5 ∙ a) ∙ (m3 ∙ (m2 ∙ m1)))

step_first :
    (s : Table) (a : Cycle)
    → s.state ≡ idle
    → a.beat.valid ≡ true
    → a.beat.first ≡ true
    → a.beat.we ≡ true
    → ((tick s a).state ≡ write)
      × ((tick s a).qword_idx ≡ slice a.beat.adr 3 12)
      × ((tick s a).mem ≡ store (slice a.beat.adr 3 12) (write_be a.beat) (write_data a.beat) s.mem)
unfolding tick step memory dispatch internal a_adr a_we in_idle
step_first s a h v f w = ground arith

step_more :
    (s : Table) (b : Cycle)
    → s.state ≡ write
    → b.beat.valid ≡ true
    → (tick s b).mem ≡ store s.qword_idx (write_be b.beat) (write_data b.beat) s.mem
unfolding tick step memory dispatch internal a_adr a_we in_write
step_more s b h v = ground arith

store_at : (q be dat : ℕ) (mem : ℕ → ℕ) → store q be dat mem q ≡ merge be dat (mem q)
unfolding store
store_at q be dat mem = ground arith

store_off : (q be dat : ℕ) (mem : ℕ → ℕ) (p : ℕ) → p ≢ q → store q be dat mem p ≡ mem p
unfolding store
store_off q be dat mem p ne = ground arith

-- The second beat of a write of several beats goes to the QWORD of the first one, over what the
-- first one wrote there, and every other QWORD stays as it was.
pub burst-same_qword :
    (s : Table) (a b : Cycle)
    → s.state ≡ idle
    → a.beat.valid ≡ true
    → a.beat.first ≡ true
    → a.beat.we ≡ true
    → b.beat.valid ≡ true
    → let q = slice a.beat.adr 3 12 in
      let t = tick (tick s a) b in
      (t.mem q
        ≡ merge
            (write_be b.beat)
            (write_data b.beat)
            (merge (write_be a.beat) (write_data a.beat) (s.mem q)))
      × ((p : ℕ) → p ≢ q → t.mem p ≡ s.mem p)
burst-same_qword s a b h v f w v' =
    let (at, q, m) = step_first s a h v f w in
    let m' = step_more (tick s a) b at v' in
    let at_q = slice a.beat.adr 3 12 in
    (
      rw (
        m',
        q,
        m,
        store_at at_q _ _ (store at_q (write_be a.beat) (write_data a.beat) s.mem),
        store_at at_q _ _ s.mem,
      ),
      λ p ne. rw (
        m',
        q,
        m,
        store_off at_q _ _ (store at_q (write_be a.beat) (write_data a.beat) s.mem) p ne,
        store_off at_q _ _ s.mem p ne,
      ),
    )
