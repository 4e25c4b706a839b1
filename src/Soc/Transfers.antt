-- ===== src/Soc/Transfers.antt =====
-- From the registers to the DMA engine.
use bsa_pcie_exerciser.Prelude.{
  ℕ, ◌+◌, ◌*◌, ◌%◌, ◌^◌, ◌≡◌, ◌∙◌, refl, ap, true, false, bit, slice, List, arith,
}
use bsa_pcie_exerciser.Registers
use bsa_pcie_exerciser.Registers.Interface
use bsa_pcie_exerciser.Registers.Plain
use bsa_pcie_exerciser.Registers.Plain.{last_or, written}
use bsa_pcie_exerciser.Registers.Edges
use bsa_pcie_exerciser.Registers.Edges.{armed, fires, prev-step, armed-step, fires-armed}
use bsa_pcie_exerciser.Dma
use bsa_pcie_exerciser.Soc.{Soc, reset, step, regs_inputs, dma_inputs}
use bsa_pcie_exerciser.Soc.Signals.{Inputs}
use bsa_pcie_exerciser.Soc.Runs.{regs_trace}

-- The value that a run has written last to a register, or 0.
unfoldable pub last_written : Plain.Plain → List Inputs → ℕ
last_written p is = last_or 0 (written p Registers.reset (regs_trace reset is))

-- The write of the start bit is the trigger of the next cycle.
trigger_follows :
    (r : Registers.Registers) (k l : Registers.Inputs)
    → armed Edges.dma r ≡ false
    → Edges.writes Edges.dma r k ≡ true
    → bit k.dat_w 0 ≡ true
    → l.dma_busy ≡ false
    → Registers.dma_trigger (Registers.step r k) l ≡ true
trigger_follows r k l a w b idle =
    let now = fires-armed Edges.dma r k in
    let before = prev-step Edges.dma r k in
    let after = armed-step Edges.dma r k in
    let later = fires-armed Edges.dma (Registers.step r k) l in
    unfold fires Edges.trigger_bit Edges.busy in ground (arith, now, before, after, later)

-- What the engine has latched.
pub record Latched (e : Dma.Engine.Engine) (is : List Inputs) : Type 0 where
  pub begins : e.state ≡ Dma.Engine.setup
  pub address :
      e.current_addr
      ≡ last_written Plain.dma_bus_addr_lo is % 2 ^ 32
        + last_written Plain.dma_bus_addr_hi is * 2 ^ 32
  pub length : e.remaining_len ≡ last_written Plain.dma_len is
  pub offset : e.current_offset ≡ slice (last_written Plain.dma_offset is) 3 14
  pub pasid : e.current_pasid_val ≡ last_written Plain.pasid_val is % 2 ^ 20
  pub requester : e.current_rid_override_value ≡ slice (last_written Plain.rid_ctl is) 0 16

engine-completes :
    (e : Dma.Engine.Engine) (k : Dma.Engine.Inputs)
    → e.state ≡ Dma.Engine.complete
    → (Dma.Engine.step e k).state ≡ Dma.Engine.idle
unfolding Dma.Engine.step
engine-completes e k h = ground arith

-- If the start bit is clear, a write of it that is taken in the cycle before the engine's last one is lost:
-- although the engine is not busy, two cycles later it is idle and the start bit is clear again.
pub trigger-lost :
    (s : Soc) (i j : Inputs)
    → armed Edges.dma s.regs ≡ false
    → Edges.writes Edges.dma s.regs (regs_inputs s i) ≡ true
    → bit i.dat_w 0 ≡ true
    → (step s i).dma.state ≡ Dma.Engine.complete
    → (Dma.Engine.busy (step s i).dma.state ≡ false)
      × ((step (step s i) j).dma.state ≡ Dma.Engine.idle)
      × (armed Edges.dma (step (step s i) j).regs ≡ false)
unfolding step regs_inputs
trigger-lost s i j a w b last =
    let t = step s i in
    let free : Dma.Engine.busy t.dma.state ≡ false =
      unfold Dma.Engine.busy in ap Dma.Engine.busy last in
    let fired : Registers.dma_trigger t.regs (regs_inputs t j) ≡ true =
      trigger_follows s.regs (regs_inputs s i) (regs_inputs t j) a w b free in
    (
      free,
      engine-completes t.dma (dma_inputs t j) last,
      armed-step Edges.dma t.regs (regs_inputs t j) ∙ (unfold fires in rw fired refl),
    )
