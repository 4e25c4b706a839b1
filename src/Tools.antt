-- ===== src/Tools.antt =====
-- The host's tools, src/bsa_pcie_exerciser/tools/.
pub mod Capture
