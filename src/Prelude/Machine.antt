-- ===== src/Prelude/Machine.antt =====
-- A synchronous module: its registers after a list of clock cycles, one input vector each.
use mathlib.Core.List.{List, [], ◌∷◌, ◌++◌}
use mathlib.Core.Path.{◌≡◌, refl}

module _ {ℓ κ} {S : Type ℓ} {I : Type κ} (step : S → I → S) where
  unfoldable pub run : S → List I → S
  run s [] = s
  run s (i ∷ is) = run (step s i) is

  pub run-cons : (s : S) (i : I) (is : List I) → run s (i ∷ is) ≡ run (step s i) is
  unfolding run
  run-cons s i is = refl

  pub run-append : (s : S) (is js : List I) → run s (is ++ js) ≡ run (run s is) js
  unfolding run
  run-append s [] js = refl
  run-append s (i ∷ is) js = run-append (step s i) is js

  -- What every cycle keeps holds after any number of cycles.
  pub run-inv {μ} :
      (P : S → Type μ)
      → ((s : S) (i : I) → P s → P (step s i))
      → (s : S) (is : List I) → P s
      → P (run s is)
  unfolding run
  run-inv P keep s [] h = h
  run-inv P keep s (i ∷ is) h = run-inv P keep (step s i) is (keep s i h)
