-- ===== src/Endpoint/Grants.antt =====
-- What the two arbiters of src/bsa_pcie_exerciser/gateware/core/bar_routing.py share, for at least
-- two sources: the packet tracking and the outputs under a grant.
pub mod Whole
use bsa_pcie_exerciser.Prelude.{ℕ, Bool, true, false, ◌&&◌, ltb, ◌==◌, if◌then◌else◌}
use bsa_pcie_exerciser.Endpoint.{Beat}

-- What both arbiters keep of the packet under way.
pub record Lock : Type 0 where
  pub current_grant : ℕ
  pub in_packet : Bool

-- The sources, numbered from 0, and the readiness of the packetizer.
pub record Inputs {ℓ} (A : Type ℓ) : Type ℓ where
  pub valid : ℕ → Bool
  pub beat : ℕ → Beat A
  pub sink_ready : Bool

abbrev pub unlocked : Lock
unlocked = record { current_grant = 0; in_packet = false }

unfoldable pub grant : Lock → ℕ → ℕ
grant s next_grant = if s.in_packet then s.current_grant else next_grant

module _ {ℓ} {A : Type ℓ} (n_sources : ℕ) where
  -- The outputs under a grant; a grant that names no source forwards nothing.
  unfoldable pub sink_valid : ℕ → Inputs A → Bool
  sink_valid g i = ltb g n_sources && i.valid g

  unfoldable pub source_ready : ℕ → Inputs A → ℕ → Bool
  source_ready g i k = k == g && ltb k n_sources && i.sink_ready

  -- One cycle of the packet tracking.
  unfoldable pub track : Lock → ℕ → Inputs A → Lock
  unfolding sink_valid
  track s g i =
      if sink_valid g i && i.sink_ready
      then record {
        current_grant = if (i.beat g).first then g else s.current_grant;
        in_packet =
            if (i.beat g).last then false else if (i.beat g).first then true else s.in_packet;
      }
      else s
