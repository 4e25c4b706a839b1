-- ===== src/Endpoint/RawTx.antt =====
-- The arbiter of the raw source and the packetizer's stream in front of the PHY,
-- src/bsa_pcie_exerciser/gateware/core/multibar_endpoint.py.
pub mod Unbroken
use bsa_pcie_exerciser.Prelude.{ℕ, Bool, true, false, ◌&&◌, not, if◌then◌else◌}
use bsa_pcie_exerciser.Endpoint.{Beat}

-- What a beat to the PHY carries.
pub record Data : Type 0 where
  pub dat : ℕ
  pub be : ℕ

pub record RawTx : Type 0 where
  pub main_in_packet : Bool

pub record Inputs : Type 0 where
  pub raw_valid : Bool
  pub raw : Beat Data
  pub main_valid : Bool
  pub main : Beat Data
  pub phy_ready : Bool

abbrev pub reset : RawTx
reset = record { main_in_packet = false }

unfoldable pub grant_raw : RawTx → Inputs → Bool
grant_raw s i = i.raw_valid && not s.main_in_packet

unfoldable pub phy_valid : RawTx → Inputs → Bool
unfolding grant_raw
phy_valid s i = if grant_raw s i then i.raw_valid else i.main_valid

unfoldable pub phy : RawTx → Inputs → Beat Data
unfolding grant_raw
phy s i = if grant_raw s i then i.raw else i.main

unfoldable pub main_ready : RawTx → Inputs → Bool
unfolding grant_raw
main_ready s i = not (grant_raw s i) && i.phy_ready

unfoldable pub raw_ready : RawTx → Inputs → Bool
unfolding grant_raw
raw_ready s i = grant_raw s i && i.phy_ready

-- One clock cycle.
unfoldable pub step : RawTx → Inputs → RawTx
step s i =
    if i.main_valid && i.phy_ready
    then record {
      main_in_packet =
          if i.main.last then false else if i.main.first then true else s.main_in_packet;
    }
    else s
