-- ===== src/Endpoint/Dispatcher.antt =====
-- The dispatcher of requests, src/bsa_pcie_exerciser/gateware/core/bar_routing.py, the class
-- LitePCIeBARDispatcher, with the six BARs and the default BAR 0 of the endpoint.
pub mod Routing
use bsa_pcie_exerciser.Prelude.{ℕ, Bool, true, false, ◌&&◌, ◌==◌, if◌then◌else◌}
use bsa_pcie_exerciser.Endpoint.{Beat, Request}

-- The registers of the module.
pub record Dispatcher : Type 0 where
  pub bar_selected : ℕ
  pub in_packet : Bool

-- A beat of the depacketizer, and the readiness of each BAR's handler.
pub record Inputs : Type 0 where
  pub source_valid : Bool
  pub source : Beat Request
  pub sink_ready : ℕ → Bool

abbrev pub reset : Dispatcher
reset = record { bar_selected = 0; in_packet = false }

unfoldable pub bar_active : Dispatcher → Inputs → ℕ
bar_active s i = if s.in_packet then s.bar_selected else i.source.body.bar_hit

-- The BAR of a hit vector: every vector that is not one-hot goes to BAR 0.
unfoldable pub bar_of : ℕ → ℕ
bar_of hit =
    if hit == 1
    then 0
    else if hit == 2
    then 1
    else if hit == 4
    then 2
    else if hit == 8
    then 3
    else if hit == 16
    then 4
    else if hit == 32
    then 5
    else 0

unfoldable pub bar_num : Dispatcher → Inputs → ℕ
unfolding bar_active
bar_num s i = bar_of (bar_active s i)

unfoldable pub sink_valid : Dispatcher → Inputs → ℕ → Bool
unfolding bar_num
sink_valid s i bar = bar == bar_num s i && i.source_valid

-- What every sink is given.
unfoldable pub sink : Inputs → Beat Request
sink i =
    let r = i.source.body in
    record {
      first = i.source.first;
      last = i.source.last;
      body = record {
        we = r.we;
        adr = r.adr;
        len = r.len;
        req_id = r.req_id;
        tag = r.tag;
        dat = r.dat;
        channel = r.channel;
        user_id = r.user_id;
        bar_hit = r.bar_hit;
        first_be = r.first_be;
        last_be = r.last_be;
        attr = r.attr;
        at = r.at;
      };
    }

unfoldable pub source_ready : Dispatcher → Inputs → Bool
unfolding bar_num
source_ready s i = i.sink_ready (bar_num s i)

-- One clock cycle.
unfoldable pub step : Dispatcher → Inputs → Dispatcher
unfolding source_ready
step s i =
    if i.source_valid && source_ready s i
    then record {
      bar_selected = if i.source.first then i.source.body.bar_hit else s.bar_selected;
      in_packet = if i.source.last then false else if i.source.first then true else s.in_packet;
    }
    else s
