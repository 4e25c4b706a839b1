-- ===== src/Tests/Levels.antt =====
-- The INTx level raised.
use bsa_pcie_exerciser.Prelude.{◌≡◌, refl, true, false, [], ◌∷◌, run}
use bsa_pcie_exerciser.Intx.{Inputs, step, reset}
use bsa_pcie_exerciser.Intx.Handshake.{levels, alternates, final, Held, levels-alternates}

abbrev raised : Inputs
raised = record { intx_assert = true; source_ready = true }

abbrev lowered : Inputs
lowered = record { intx_assert = false; source_ready = true }

raised-Held : Held true raised
raised-Held = record { level = refl; ready = refl }

levels-alternates_example :
    (alternates false (levels reset (raised ∷ raised ∷ lowered ∷ lowered ∷ [])) ≡ true)
    × (final false (levels reset (raised ∷ raised ∷ lowered ∷ lowered ∷ []))
        ≡ (run step reset (raised ∷ raised ∷ lowered ∷ lowered ∷ [])).current_state)
levels-alternates_example = levels-alternates (raised ∷ raised ∷ lowered ∷ lowered ∷ [])
