-- ===== src/Ats/System/Translate.antt =====
-- A translation from the trigger to the lookup of the DMA engine.
use bsa_pcie_exerciser.Prelude.{
  ℕ, ◌+◌, ◌^◌, ◌≤◌, ◌<◌, ◌≡◌, ◌∙◌, ap, sym, subst, ◌↔◌, ◌≢◌, inl, ◌⊎◌, true, false, List, [], ◌∷◌,
  ◌++◌, arith, run, run-append, refl, length, bit, map, ◌%◌,
}
use mathlib.Core.List.{map-append}
use bsa_pcie_exerciser.Ats.Atc
use bsa_pcie_exerciser.Ats.Atc.Lookup.{Stores, store-lookup}
use bsa_pcie_exerciser.Ats.Engine
use bsa_pcie_exerciser.Ats.Engine.{trans_addr, range_of, permissions_of}
use bsa_pcie_exerciser.Ats.Engine.Answer.{Stalls, Silent, Answered, request-answer}
use bsa_pcie_exerciser.Ats.Invalidation
use bsa_pcie_exerciser.Ats.System.{System, Inputs, step, engine_inputs, atc_inputs}

-- No invalidation message arrives.
abbrev pub NoMessage : List Inputs → Type 0
NoMessage [] = Unit {0}
NoMessage (i ∷ is) = (i.inv_valid ≡ false) × NoMessage is

handler_idles :
    (s : System) (i : Inputs)
    → s.handler.state ≡ Invalidation.idle
    → i.inv_valid ≡ false
    → ((step s i).handler.state ≡ Invalidation.idle)
      × ((step s i).engine ≡ Engine.step s.engine (engine_inputs false i))
unfolding step Invalidation.step Invalidation.ats_retry
handler_idles s i h v = ground arith

-- With the handler idle the engine runs on the registers alone.
run-engine :
    (s : System) (is : List Inputs)
    → s.handler.state ≡ Invalidation.idle
    → NoMessage is
    → ((run step s is).handler.state ≡ Invalidation.idle)
      × ((run step s is).engine ≡ run Engine.step s.engine (map (engine_inputs false) is))
unfolding run
run-engine s [] h n = (h, refl)
run-engine s (i ∷ is) h (v, n) =
    let (h', e) = handler_idles s i h v in
    let (h'', e') = run-engine (step s i) is h' n in
    (h'', e' ∙ ap (λ t. run Engine.step t (map (engine_inputs false) is)) e)

abbrev pub feed : List Inputs → List Engine.Inputs
feed = map (engine_inputs false)

-- The cycles of one translation, up to the one before the result is presented.
abbrev pub cycles : Inputs → List Inputs → Inputs → List Inputs → Inputs → Inputs → List Inputs
cycles i stalls a waits c p = i ∷ (stalls ++ (a ∷ (waits ++ (c ∷ p ∷ []))))

-- A translation that succeeds: a trigger with ATS enabled on an idle system, cycles on which the
-- port stalls, one on which it takes the request, fewer than 2 ^ 24 - 1 silent ones, and the last
-- beat of a completion without error, whose U bit is clear; no invalidation message meanwhile.
pub record Translates (s : System) (i : Inputs) (stalls : List Inputs) (a : Inputs)
    (waits : List Inputs) (c p : Inputs) : Type 0 where
  pub quiet : s.handler.state ≡ Invalidation.idle
  pub ready : s.engine.state ≡ Engine.idle
  pub silent_bus : NoMessage (cycles i stalls a waits c p)
  pub trigger : i.ats_trigger ≡ true
  pub enabled : i.ats_enable ≡ true
  pub stalled : Stalls (feed stalls)
  pub taken : a.source_ready ≡ true
  pub waiting : Silent (feed waits)
  pub in_time : length (feed waits) < 0xff_ffff
  pub arrives :
      (c.sink_valid ≡ true) × (c.sink_err ≡ false) × (c.sink_last ≡ true) × (c.sink_end ≡ true)
  pub translated : bit c.sink_dat 4 ≡ false

-- The cycle that stores the result: nothing invalidates, and the range does not pass 2 ^ 64.
pub record Keeps (d : ℕ) (q : Inputs) : Type 0 where
  pub not_cleared : q.ats_clear_atc ≡ false
  pub still_enabled : q.ats_enable ≡ true
  pub size : 0 < range_of d
  pub input_fits : q.dma_bus_addr + range_of d ≤ 2 ^ 64
  pub output_fits : trans_addr d + range_of d ≤ 2 ^ 64

feed-cycles :
    (i : Inputs) (stalls : List Inputs) (a : Inputs) (waits : List Inputs) (c p : Inputs)
    → feed (cycles i stalls a waits c p)
      ≡ engine_inputs false i
        ∷ (feed stalls
            ++ (engine_inputs false a
                ∷ (feed waits ++ (engine_inputs false c ∷ engine_inputs false p ∷ []))))
feed-cycles i stalls a waits c p = simp map-append

module _ {s : System} {i : Inputs} {stalls : List Inputs} {a : Inputs} {waits : List Inputs}
    {c p : Inputs} (t : Translates s i stalls a waits c p) where
  arrived : System
  arrived = run step s (cycles i stalls a waits c p)

  engine_arrived :
      Answered i.ats_privileged c.sink_dat arrived.engine
      × (arrived.handler.state ≡ Invalidation.idle)
  unfolding arrived engine_inputs
  engine_arrived =
      let e = run-engine s (cycles i stalls a waits c p) t.quiet t.silent_bus in
      let answer =
        request-answer s.engine (engine_inputs false i) (feed stalls) (engine_inputs false a)
          (feed waits) (engine_inputs false c) (engine_inputs false p) t.ready
          (ground (arith, t.trigger, t.enabled)) t.stalled t.taken t.waiting t.in_time
          (refl, t.arrives.0, t.arrives.1, t.arrives.2, t.arrives.3) in
      (
        subst (λ m. Answered i.ats_privileged c.sink_dat m)
            (sym (e.1 ∙ ap (run Engine.step s.engine) (feed-cycles i stalls a waits c p))) answer,
        e.0,
      )

  -- What the store cycle hands to the cache.
  stores :
      (q : Inputs)
      → Keeps c.sink_dat q
      → Stores (atc_inputs arrived q)
        × ((atc_inputs arrived q).store_output_addr ≡ trans_addr c.sink_dat)
        × ((atc_inputs arrived q).store_range_size ≡ range_of c.sink_dat)
        × ((atc_inputs arrived q).store_permissions ≡ permissions_of i.ats_privileged c.sink_dat)
  unfolding atc_inputs Invalidation.atc_invalidate
  stores q k =
      let (e, h) = engine_arrived in
      ground (
        arith,
        e.presented,
        e.successful,
        e.address t.translated,
        e.range t.translated,
        e.rights t.translated,
        t.translated,
      )

  atc_after :
      (q j : Inputs)
      → (run step s (cycles i stalls a waits c p ++ (q ∷ j ∷ []))).atc
        ≡ Atc.step (Atc.step arrived.atc (atc_inputs arrived q)) (atc_inputs (step arrived q) j)
  unfolding step arrived run
  atc_after q j = rw (run-append step s (cycles i stalls a waits c p) (q ∷ j ∷ []))

-- After a successful translation, the lookup in the cycle after the store answers for the address
-- and the PASID that the registers hold in the store cycle: it hits exactly for an address of the
-- range that begins there, in that PASID context, and gives the translated address at the same
-- distance and the permissions of the completion.
pub translate :
    {s : System} {i : Inputs} {stalls : List Inputs} {a : Inputs} {waits : List Inputs}
    {c p : Inputs} (q j : Inputs)
    → Translates s i stalls a waits c p
    → Keeps c.sink_dat q
    → let d = c.sink_dat in
      let u = (run step s (cycles i stalls a waits c p ++ (q ∷ j ∷ []))).atc in
      let inside =
        (q.dma_bus_addr ≤ j.lookup_addr) × (j.lookup_addr < q.dma_bus_addr + range_of d) in
      let context =
        ((q.ats_pasid_en ≡ false) × (j.pasid_out_en ≡ false))
        ⊎ ((q.ats_pasid_en ≡ true)
            × (j.pasid_out_en ≡ true)
            × (q.pasid_val % 2 ^ 20 ≡ j.pasid_out_val)) in
      ((u.lookup_hit ≡ true) ↔ (inside × context))
      × (inside → u.lookup_output + q.dma_bus_addr ≡ trans_addr d + j.lookup_addr)
      × (u.lookup_perm ≡ permissions_of i.ats_privileged d)
unfolding atc_inputs
translate {s} {i} {stalls} {a} {waits} {c} {p} q j t k =
    let (st, out, size, perm) = stores t q k in
    let (hits, output, rights) =
      store-lookup (arrived t).atc (atc_inputs (arrived t) q) (atc_inputs (step (arrived t) q) j)
        st in
    rw (atc_after t q j) (
      (λ h. ground (arith, hits.0 h, size), λ h. hits.1 (ground (arith, h, size))),
      λ h. ground (arith, output (ground (arith, h, size)), out),
      ground (arith, rights, perm),
    )

-- If the address register is changed between the trigger and the store cycle, the request that is
-- sent asks for the old address, and yet the entry maps the new one: a lookup of the new address,
-- without a PASID, hits and gives the translation of the old one.
pub translate_moved :
    {s : System} {i : Inputs} {stalls : List Inputs} {a : Inputs} {waits : List Inputs}
    {c p : Inputs} (q j : Inputs)
    → Translates s i stalls a waits c p
    → Keeps c.sink_dat q
    → q.dma_bus_addr ≢ i.dma_bus_addr
    → j.lookup_addr ≡ q.dma_bus_addr
    → q.ats_pasid_en ≡ false
    → j.pasid_out_en ≡ false
    → let u = (run step s (cycles i stalls a waits c p ++ (q ∷ j ∷ []))).atc in
      ((Engine.request (step s i).engine).adr ≡ i.dma_bus_addr)
      × ((Engine.request (step s i).engine).adr ≢ j.lookup_addr)
      × (u.lookup_hit ≡ true)
      × (u.lookup_output ≡ trans_addr c.sink_dat)
translate_moved {s} {i} q j t k ne at off none =
    let (hits, output, rights) = translate q j t k in
    let asks = asked in
    (
      asks,
      λ e. ne (sym at ∙ (sym e ∙ asks)),
      hits.1 (ground (arith, k.size), inl (off, none)),
      ground (arith, output (ground (arith, k.size))),
    )
  where
    asked : (Engine.request (step s i).engine).adr ≡ i.dma_bus_addr
    asked =
        unfold step Engine.request Engine.step engine_inputs in
        ground (arith, t.ready, t.trigger, t.enabled)
