-- ===== src/Endpoint/Masters.antt =====
-- The arbiter of master requests, src/bsa_pcie_exerciser/gateware/core/bar_routing.py, the class
-- LitePCIeMasterArbiter.
pub mod Scan
pub mod Turns
use bsa_pcie_exerciser.Prelude.{
  ℕ, zero, suc, ◌+◌, ◌-◌, ◌%◌, Bool, ◌&&◌, ◌==◌, if◌then◌else◌, Option, none, some,
}
use bsa_pcie_exerciser.Endpoint.{Request}
use bsa_pcie_exerciser.Endpoint.Grants.{Lock, Inputs, unlocked, grant, sink_valid, track}

pub record Arbiter : Type 0 where
  pub rr_state : ℕ
  pub lock : Lock

abbrev pub reset : Arbiter
reset = record { rr_state = 0; lock = unlocked }

module _ (n_sources : ℕ) where
  -- The scan from `rr_state`, with the offsets below `k` seen: the first valid source, if any.
  unfoldable pub scan : (ℕ → Bool) → ℕ → ℕ → Option ℕ
  scan valid rr zero = none
  scan valid rr (suc k) =
      let seen = scan valid rr k in
      let check_idx = (rr + k) % n_sources in
      elim seen [ some g ↦ some g | none ↦ if valid check_idx then some check_idx else none ]

  unfoldable pub next_grant : (ℕ → Bool) → ℕ → ℕ
  unfolding scan
  next_grant valid rr = elim (scan valid rr n_sources) [ some g ↦ g | none ↦ 0 ]

  unfoldable pub granted : Arbiter → Inputs Request → ℕ
  unfolding grant next_grant
  granted s i = grant s.lock (next_grant i.valid s.rr_state)

  unfoldable pub rotate : ℕ → ℕ
  rotate g = if g == n_sources - 1 then 0 else g + 1

  -- One clock cycle.
  unfoldable pub step : Arbiter → Inputs Request → Arbiter
  unfolding granted track sink_valid rotate
  step s i =
      let g = granted s i in
      record {
        rr_state =
            if sink_valid n_sources g i && i.sink_ready && (i.beat g).last
            then rotate g
            else s.rr_state;
        lock = track n_sources s.lock g i;
      }

-- What the packetizer is given: the byte enables and the BAR are left at 0.
unfoldable pub forward : Request → Request
forward r = record {
  we = r.we;
  adr = r.adr;
  len = r.len;
  req_id = r.req_id;
  tag = r.tag;
  dat = r.dat;
  channel = r.channel;
  user_id = r.user_id;
  bar_hit = 0;
  first_be = 0;
  last_be = 0;
  attr = r.attr;
  at = r.at;
}
