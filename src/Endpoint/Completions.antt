-- ===== src/Endpoint/Completions.antt =====
-- The arbiter of completions, src/bsa_pcie_exerciser/gateware/core/bar_routing.py, the class
-- LitePCIeCompletionArbiter.
pub mod Order
use bsa_pcie_exerciser.Prelude.{ℕ, zero, suc, Bool, true, false, ◌&&◌, ◌||◌, not, if◌then◌else◌}
use bsa_pcie_exerciser.Endpoint.{Completion}
use bsa_pcie_exerciser.Endpoint.Grants.{Lock, Inputs, grant, track}

-- Some source below `k` requests.
unfoldable pub requesting_below : (ℕ → Bool) → ℕ → Bool
requesting_below valid zero = false
requesting_below valid (suc k) = valid k || requesting_below valid k

-- The priority encoder over the sources below `k`.
unfoldable pub next_grant : (ℕ → Bool) → ℕ → ℕ
unfolding requesting_below
next_grant valid zero = 0
next_grant valid (suc k) =
    let before = next_grant valid k in
    if valid k && not (requesting_below valid k) then k else before

module _ (n_sources : ℕ) where
  unfoldable pub granted : Lock → Inputs Completion → ℕ
  unfolding grant next_grant
  granted s i = grant s (next_grant i.valid n_sources)

  -- One clock cycle.
  unfoldable pub step : Lock → Inputs Completion → Lock
  unfolding granted track
  step s i = track n_sources s (granted s i) i

-- What the packetizer is given.
unfoldable pub forward : Completion → Completion
forward c = record {
  dat = c.dat;
  len = c.len;
  end = c.end;
  err = c.err;
  tag = c.tag;
  status = c.status;
  byte_count = c.byte_count;
  adr = c.adr;
  req_id = c.req_id;
  cmp_id = c.cmp_id;
  channel = c.channel;
  user_id = c.user_id;
}
