-- ===== src/Endpoint/Stub.antt =====
-- The handler of a BAR that is not implemented,
-- src/bsa_pcie_exerciser/gateware/core/bar_routing.py, the class LitePCIeStubBARHandler, with
-- `return_ur` as in the endpoint.
pub mod Answers
use bsa_pcie_exerciser.Prelude.{ℕ, Bool, true, false, ◌&&◌, ◌||◌, not, if◌then◌else◌}
use bsa_pcie_exerciser.Endpoint.{Beat, Request, Completion}

pub record Stub : Type 0 where
  pub req_valid : Bool
  pub req_tag : ℕ
  pub req_req_id : ℕ

-- A beat of the dispatcher, and the readiness of the arbiter.
pub record Inputs : Type 0 where
  pub valid : Bool
  pub req : Beat Request
  pub cpl_ready : Bool

abbrev pub reset : Stub
reset = record { req_valid = false; req_tag = 0; req_req_id = 0 }

unfoldable pub req_ready : Stub → Inputs → Bool
req_ready s i = not s.req_valid || i.req.body.we

unfoldable pub cpl_valid : Stub → Bool
cpl_valid s = s.req_valid

-- One clock cycle: the later assignment, of a completion that is taken, wins.
unfoldable pub step : Stub → Inputs → Stub
unfolding req_ready cpl_valid
step s i =
    let t =
      if i.valid && req_ready s i && i.req.first
      then record {
        req_valid = not i.req.body.we;
        req_tag = i.req.body.tag;
        req_req_id = i.req.body.req_id;
      }
      else s in
    if cpl_valid s && i.cpl_ready then record t { req_valid = false } else t

-- The completion: one beat, with the error mark of an unsupported request.
unfoldable pub cpl : Stub → Beat Completion
cpl s = record {
  first = true;
  last = true;
  body = record {
    dat = 0;
    len = 0;
    end = true;
    err = true;
    tag = s.req_tag;
    status = 0;
    byte_count = 0;
    adr = 0;
    req_id = s.req_req_id;
    cmp_id = 0;
    channel = 0;
    user_id = 0;
  };
}
