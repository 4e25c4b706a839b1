-- ===== src/Msix/Fire.antt =====
-- A vector that software triggers.
use bsa_pcie_exerciser.Prelude.{
  ℕ, ◌+◌, ◌*◌, ◌/◌, ◌%◌, ◌^◌, ◌<◌, ◌≡◌, Bool, true, false, bit, slice, arith,
}
use native.Mathlib.Nat.{add-div_right, one-le-pow}
use bsa_pcie_exerciser.Msix.Table
use bsa_pcie_exerciser.Msix.Table.{}
use bsa_pcie_exerciser.Prelude.Memory.{store, merge, lane}
use bsa_pcie_exerciser.Msix.Pba
use bsa_pcie_exerciser.Msix.Controller.{
  Msix, Inputs, step, idle, read_table, message, drive, next_state,
}

-- A cycle without a write enable leaves a word alone.
merge_none : (dat old : ℕ) → old < 2 ^ 64 → merge 0 dat old ≡ old
unfolding merge lane
merge_none dat old h = omega arith

store_none : (adr dat : ℕ) (mem : ℕ → ℕ) (n : ℕ) → mem n < 2 ^ 64 → store adr 0 dat mem n ≡ mem n
unfolding store
store_none adr dat mem n h = ground (arith, merge_none dat (mem n) h)

-- A cycle without a beat of the host keeps every word.
mem_kept :
    (s : Table.Table) (i : Table.Inputs) (en : Bool) (v n : ℕ)
    → i.valid ≡ false
    → s.mem n < 2 ^ 64
    → (Table.step s i en v).mem n ≡ s.mem n
unfolding Table.step
mem_kept s i en v n q h =
    ground (arith, store_none (Table.a_adr s.state s i) (Table.write_data i) s.mem n h)

-- The entry of vector `v` is being read, at count `n`.
record Reading (v a b n : ℕ) (s : Msix) : Type 0 where
  at : s.state ≡ read_table
  vector : s.current_vector ≡ v
  active : s.table.int_read_active ≡ true
  count : s.table.int_read_cnt ≡ n
  waits : s.table.read_valid ≡ false
  low : s.table.mem (v * 2) ≡ a
  high : s.table.mem (1 + v * 2) ≡ b
  first : n ≡ 1 → s.table.b_dat_r ≡ a
  second : n ≡ 2 → s.table.b_dat_r ≡ b
  latched : n ≡ 2 → s.table.int_qword0 ≡ a

-- The trigger of a vector on an idle controller, while the host leaves the table alone.
pub record Triggers (s : Msix) (i : Inputs) : Type 0 where
  pub ready : s.state ≡ idle
  pub rested : s.table.int_read_active ≡ false
  pub valid : i.sw_valid ≡ true
  pub vector : i.sw_vector < 2 ^ 11
  pub alone : i.table_request.valid ≡ false
  pub low : s.table.mem (i.sw_vector * 2) < 2 ^ 64
  pub high : s.table.mem (1 + i.sw_vector * 2) < 2 ^ 64

step-Triggers :
    (s : Msix) (i : Inputs)
    → Triggers s i
    → Reading i.sw_vector
        (s.table.mem (i.sw_vector * 2))
        (s.table.mem (1 + i.sw_vector * 2))
        0
        (step s i)
unfolding step Table.step Table.memory Table.dispatch Table.internal drive next_state Table.in_idle
    Table.in_write
step-Triggers s i t = ground (
  arith,
  mem_kept s.table i.table_request true i.sw_vector (i.sw_vector * 2) t.alone t.low,
  mem_kept s.table i.table_request true i.sw_vector (1 + i.sw_vector * 2) t.alone t.high,
)

step-Reading :
    (v a b n : ℕ) (s : Msix) (i : Inputs)
    → Reading v a b n s
    → n < 2
    → a < 2 ^ 64
    → b < 2 ^ 64
    → i.table_request.valid ≡ false
    → Reading v a b (n + 1) (step s i)
unfolding step Table.step Table.memory Table.dispatch Table.internal drive next_state Table.in_idle
    Table.in_write
step-Reading v a b n s i r l p q h = ground (
  arith,
  mem_kept s.table i.table_request false v (v * 2) h (omega (arith, r.low)),
  mem_kept s.table i.table_request false v (1 + v * 2) h (omega (arith, r.high)),
)

-- The entry has been read.
record Read (v a b : ℕ) (s : Msix) : Type 0 where
  at : s.state ≡ read_table
  vector : s.current_vector ≡ v
  valid : s.table.read_valid ≡ true
  first : s.table.int_qword0 ≡ a
  second : s.table.int_qword1 ≡ b
  rested : s.table.int_read_active ≡ false

step-Read : (v a b : ℕ) (s : Msix) (i : Inputs) → Reading v a b 2 s → Read v a b (step s i)
unfolding step Table.step Table.memory Table.dispatch Table.internal drive next_state Table.in_idle
    Table.in_write
step-Read v a b s i r = ground arith

run-Read :
    (s : Msix) (i j k l : Inputs)
    → Triggers s i
    → j.table_request.valid ≡ false
    → k.table_request.valid ≡ false
    → Read i.sw_vector
        (s.table.mem (i.sw_vector * 2))
        (s.table.mem (1 + i.sw_vector * 2))
        (step (step (step (step s i) j) k) l)
run-Read s i j k l t p q =
    let v = i.sw_vector in
    let a = s.table.mem (v * 2) in
    let b = s.table.mem (1 + v * 2) in
    let r0 = step-Triggers s i t in
    let r1 = step-Reading v a b 0 (step s i) j r0 (omega arith) t.low t.high p in
    let r2 = step-Reading v a b 1 (step (step s i) j) k r1 (omega arith) t.low t.high q in
    step-Read v a b (step (step (step s i) j) k) l r2

step_fires :
    (v a b : ℕ) (s : Msix) (m : Inputs)
    → Read v a b s
    → bit b 32 ≡ false
    → (message (step s m) ≡ (true, a, slice b 0 32)) × ((step s m).current_vector ≡ v)
unfolding step Table.step Table.memory Table.dispatch Table.internal drive next_state Table.in_idle
    Table.in_write message Table.masked Table.msg_addr Table.msg_data
step_fires v a b s m r u = ground arith

-- With the controller at rest and no beat of the host at the table meanwhile, a trigger of a vector
-- that is not masked puts a write on the master port in the fifth cycle: at the message address of
-- the vector's entry, with its message data.
pub trigger-fires :
    (s : Msix) (i j k l m : Inputs)
    → Triggers s i
    → j.table_request.valid ≡ false
    → k.table_request.valid ≡ false
    → bit (s.table.mem (1 + i.sw_vector * 2)) 32 ≡ false
    → message (step (step (step (step (step s i) j) k) l) m)
      ≡ (true, s.table.mem (i.sw_vector * 2), slice (s.table.mem (1 + i.sw_vector * 2)) 0 32)
trigger-fires s i j k l m t p q u =
    (step_fires i.sw_vector (s.table.mem (i.sw_vector * 2)) (s.table.mem (1 + i.sw_vector * 2))
      (step (step (step (step s i) j) k) l) m (run-Read s i j k l t p q) u).0

bit-set_bit : (w b : ℕ) → bit (Pba.set_bit w b) b ≡ true
unfolding Pba.set_bit
bit-set_bit w b = ground (arith, add-div_right w {k = 2 ^ b} (one-le-pow b 2 (omega arith)))

-- The pending bit of a vector.
abbrev pub is_pending : Pba.Pba → ℕ → Bool
is_pending p v = bit (p.pending (v / 2 ^ 6 % 2 ^ 5)) (v % 2 ^ 6)

set_pending_bit :
    (p : Pba.Pba) (i : Table.Inputs) (v : ℕ) → is_pending (Pba.step p i v true false) v ≡ true
unfolding Pba.step Pba.next_pending Pba.update Pba.dispatch
set_pending_bit p i v = ground (arith, bit-set_bit (p.pending (v / 2 ^ 6 % 2 ^ 5)) (v % 2 ^ 6))

step_pends :
    (v a b : ℕ) (s : Msix) (m : Inputs)
    → Read v a b s
    → bit b 32 ≡ true
    → ((step s m).state ≡ idle) × ((step s m).pba ≡ Pba.step s.pba m.pba_request v true false)
unfolding step drive next_state Table.masked
step_pends v a b s m r u = ground arith

-- With the controller at rest and no beat of the host at the table meanwhile, a trigger of a vector
-- that is masked sends nothing: after the fifth cycle the controller is at rest and the vector is
-- pending.
pub trigger-pends :
    (s : Msix) (i j k l m : Inputs)
    → Triggers s i
    → j.table_request.valid ≡ false
    → k.table_request.valid ≡ false
    → bit (s.table.mem (1 + i.sw_vector * 2)) 32 ≡ true
    → let t = step (step (step (step (step s i) j) k) l) m in
      (t.state ≡ idle) × (is_pending t.pba i.sw_vector ≡ true)
trigger-pends s i j k l m t p q u =
    let (at, e) =
      step_pends i.sw_vector (s.table.mem (i.sw_vector * 2)) (s.table.mem (1 + i.sw_vector * 2))
        (step (step (step (step s i) j) k) l) m (run-Read s i j k l t p q) u in
    (at, rw e (set_pending_bit _ _ i.sw_vector))
