-- ===== src/Soc/Trace.antt =====
-- The transaction monitor read through the registers.
use bsa_pcie_exerciser.Prelude.{
  ℕ, List, [], ◌∷◌, ◌++◌, take, drop, ap, ◌≡◌, ◌∙◌, refl, Bool, true, false, ◌&&◌, not,
  if◌then◌else◌, arith,
}
use bsa_pcie_exerciser.Registers
use bsa_pcie_exerciser.Registers.Interface
use bsa_pcie_exerciser.Registers.Plain.{answered}
use bsa_pcie_exerciser.Monitor
use bsa_pcie_exerciser.Monitor.Words.{words, first_or}
use bsa_pcie_exerciser.Monitor.Reads.{left, captured, left-step, data-first}
use bsa_pcie_exerciser.Soc.{Soc, step, poison_mode, regs_inputs, txn_inputs, txn_fifo_depth}
use bsa_pcie_exerciser.Soc.Signals.{Inputs}

-- A read of TXN_TRACE: the host asks, and holds its request in the cycle of the answer.
pub record Reads (s : Soc) (i j : Inputs) : Type 0 where
  pub asked : (i.cyc && i.stb && not i.we) ≡ true
  pub held : (j.cyc && j.stb && not j.we) ≡ true
  pub at : Registers.reg_addr (regs_inputs s i) ≡ Registers.Offsets.reg_txn_trace
  pub still : Registers.reg_addr (regs_inputs (step s i) j) ≡ Registers.Offsets.reg_txn_trace
  pub fresh : s.regs.ack ≡ false
  pub sound : poison_mode s ≡ false
  pub kept : Interface.txn_clear s.regs ≡ false
  pub kept_next : Interface.txn_clear (step s i).regs ≡ false

last_false : (b : Bool) → (b && false) ≡ false
last_false true = refl
last_false false = refl

read-answer :
    (r : Registers.Registers) (k : Registers.Inputs)
    → (k.cyc && k.stb && not k.we) ≡ true
    → Registers.reg_addr k ≡ Registers.Offsets.reg_txn_trace
    → r.ack ≡ false
    → k.poison_mode ≡ false
    → ((Registers.step r k).ack ≡ true) × ((Registers.step r k).dat_r ≡ Registers.txn_trace k)
read-answer r k a at f p =
    let (ack, read, _) = answered r k in
    let asked : Registers.strobe r k ≡ true = unfold Registers.strobe in ground arith in
    (
      ack ∙ (unfold Registers.answer in asked),
      read ∙ (unfold Registers.answer Registers.read_data Registers.mux in rw (asked, p, at) refl),
    )

-- What TXN_TRACE shows: the first word that waits, or all ones.
shown :
    (t : Monitor.Monitor)
    → Monitor.Fifo.Inv txn_fifo_depth t
    → t.rd_adr ≡ t.rd_ptr
    → (if Monitor.fifo_empty t then 0xffff_ffff else Monitor.fifo_data t)
      ≡ first_or 0xffff_ffff (left txn_fifo_depth t)
unfolding first_or
shown t v a =
    first_of (Monitor.fifo_empty t) (Monitor.fifo_data t) _ (data-first txn_fifo_depth t v a)
  where
    first_of :
        (empty : Bool) (w : ℕ) (ws : List ℕ)
        → (if empty then [] else w ∷ []) ≡ take 1 ws
        → (if empty then 0xffff_ffff else w) ≡ first_or 0xffff_ffff ws
    first_of true w [] h = refl
    first_of true w (x ∷ ws) h = ap (first_or 0xffff_ffff) h
    first_of false w [] h = ap (first_or 0xffff_ffff) h
    first_of false w (x ∷ ws) h = ap (first_or 0xffff_ffff) h

-- A read of TXN_TRACE through the bus by a host that holds its request in the cycle of the acknowledge,
-- with no acknowledge pending, not in poison mode and with no clear in these two cycles: the answer is the
-- first of the words that wait in the monitor, or all ones if none does. The words that a transaction
-- captured in the first cycle adds are appended, and then one word is gone, the answer or, where the
-- monitor was empty, the first word of that capture; the words captured in the second cycle follow. The
-- monitor satisfies its invariant, and its read port has settled.
pub read-moves :
    (s : Soc) (i j : Inputs)
    → Monitor.Fifo.Inv txn_fifo_depth s.txn
    → s.txn.rd_adr ≡ s.txn.rd_ptr
    → Reads s i j
    → let u = step s i in
      let waiting = left txn_fifo_depth s.txn in
      let early = words (captured txn_fifo_depth s.txn (txn_inputs s i)) in
      let late = words (captured txn_fifo_depth u.txn (txn_inputs u j)) in
      (u.regs.dat_r ≡ first_or 0xffff_ffff waiting)
      × (left txn_fifo_depth (step u j).txn ≡ drop 1 (waiting ++ early) ++ late)
unfolding step
read-moves s i j v settled r =
    let k = txn_inputs s i in
    let l = txn_inputs (step s i) j in
    let t = Monitor.step txn_fifo_depth s.txn k in
    let (ack, answer) =
      read-answer s.regs (regs_inputs s i) (unfold regs_inputs in r.asked) r.at r.fresh
        (unfold regs_inputs in r.sound) in
    let trace : Registers.txn_trace (regs_inputs s i)
        ≡ (if Monitor.fifo_empty s.txn then 0xffff_ffff else Monitor.fifo_data s.txn) =
      unfold Registers.txn_trace regs_inputs in ground arith in
    let before : k.fifo_read ≡ false =
      unfold txn_inputs Interface.txn_fifo_read in rw r.fresh (last_false _) in
    let after : l.fifo_read ≡ true =
      unfold txn_inputs Interface.txn_fifo_read in
      let cont : ((regs_inputs (step s i) j).cyc
            && (regs_inputs (step s i) j).stb
            && not (regs_inputs (step s i) j).we)
          ≡ true =
        unfold regs_inputs in r.held in
      ground (arith, ack, r.still, cont) in
    let first = left-step txn_fifo_depth s.txn k v (unfold txn_inputs in r.kept) in
    let second =
      left-step txn_fifo_depth t l (Monitor.Fifo.step-Inv txn_fifo_depth s.txn k v)
        (unfold txn_inputs in r.kept_next) in
    let w = left txn_fifo_depth s.txn in
    let early = words (captured txn_fifo_depth s.txn k) in
    let late = words (captured txn_fifo_depth t l) in
    (
      answer ∙ trace ∙ shown s.txn v settled,
      second
          ∙ (ap (λ b. (if b then drop 1 (left txn_fifo_depth t) else left txn_fifo_depth t) ++ late)
                after
              ∙ ap (λ ws. drop 1 ws ++ late)
                  (first ∙ ap (λ b. (if b then drop 1 w else w) ++ early) before)),
    )
