-- ===== src/GoMap/Defs.antt =====
-- The operations of a map: read, write, and read-modify-write at a key.
use oxide_gha_runner_scale_s.Prelude.{
  String, ℕ, Bool, List, [], ◌∷◌, Option, none, some, str_eq, if◌then◌else◌, count_if,
}

abbrev pub Map {ℓ} : Type ℓ → Type ℓ
Map V = List (String × V)

module _ {ℓ} {V : Type ℓ} where
  -- `v, ok := m[k]`.
  unfoldable pub lookup : String → Map V → Option V
  lookup k [] = none
  lookup k ((j, v) ∷ m) = if str_eq j k then some v else lookup k m

  -- `m[k] = f(m[k])`, where `f` is told whether the key is there.
  unfoldable pub update : String → (Option V → V) → Map V → Map V
  update k f [] = (k, f none) ∷ []
  update k f ((j, v) ∷ m) = if str_eq j k then (j, f (some v)) ∷ m else (j, v) ∷ update k f m

  -- `m[k] = v`.
  unfoldable pub insert : String → V → Map V → Map V
  unfolding update
  insert k v m = update k (λ _. v) m

  -- How many values pass a test.
  abbrev pub count_values : (V → Bool) → Map V → ℕ
  count_values p m = count_if (λ e. p e.1) m
