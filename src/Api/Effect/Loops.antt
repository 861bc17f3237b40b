-- ===== src/Api/Effect/Loops.antt =====
-- What a loop over a map does to counts of its values.
use oxide_gha_runner_scale_s.Prelude.{◌≡◌, refl, Bool, [], ◌∷◌, bit, arith, ap}
use oxide_gha_runner_scale_s.GoMap.{Map, count_values}
use oxide_gha_runner_scale_s.Api.{Log}
use oxide_gha_runner_scale_s.Api.Effect.{Effect, for_each}

module _ {ℓ} {V : Type ℓ} (p : V → Bool) (body : V → Effect V) where
  -- A body that keeps a test keeps the count of the values that pass it.
  pub for_each-count :
      ((v : V) (l : Log) → p (body v l).0 ≡ p v)
      → (m : Map V) (l : Log) → count_values p (for_each body m l).0 ≡ count_values p m
  unfolding for_each
  for_each-count keep [] l = refl
  for_each-count keep ((k, v) ∷ m) l =
      omega (arith, ap bit (keep v l), for_each-count keep m (body v l).1)
