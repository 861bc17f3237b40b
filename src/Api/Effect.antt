-- ===== src/Api/Effect.antt =====
-- Computations that make calls: each reads the log so far and returns its value with the longer log.
pub mod Loops
use oxide_gha_runner_scale_s.Prelude.{[], ◌∷◌}
use oxide_gha_runner_scale_s.GoMap.{Map}
use oxide_gha_runner_scale_s.Api.{Log}

abbrev pub Effect {ℓ} : Type ℓ → Type ℓ
Effect A = Log → A × Log

module _ {ℓ} {A : Type ℓ} where
  abbrev pub pure : A → Effect A
  pure a l = (a, l)

module _ {ℓ κ} {A : Type ℓ} {B : Type κ} where
  infixl 5 ◌>>=◌
  abbrev pub ◌>>=◌ : Effect A → (A → Effect B) → Effect B
  ◌>>=◌ m f l = let (a, l') = m l in f a l'

module _ {ℓ} {V : Type ℓ} where
  -- A loop over a map whose body may change the value of the entry that it visits.
  unfoldable pub for_each : (V → Effect V) → Map V → Effect (Map V)
  for_each body [] = pure []
  for_each body ((k, v) ∷ m) = do v' ← body v; m' ← for_each body m; pure ((k, v') ∷ m')
