-- ===== src/GoMap/Laws.antt =====
-- What a read finds after a write, and how a write changes a count.
use oxide_gha_runner_scale_s.Prelude.{
  String, ℕ, ◌+◌, ◌≡◌, refl, Bool, [], ◌∷◌, Option, none, some, str_eq, str_eq_iff, if◌then◌else◌,
  bit, arith,
}
use oxide_gha_runner_scale_s.GoMap.Defs.{Map, lookup, update, insert, count_values}

module _ {ℓ} {V : Type ℓ} where
  -- A write at `k` is read back at `k`, and every other key reads as before.
  pub lookup-update :
      (k j : String) (f : Option V → V) (m : Map V)
      → lookup j (update k f m) ≡ (if str_eq k j then some (f (lookup k m)) else lookup j m)
  unfolding lookup update
  lookup-update k j f [] = refl
  lookup-update k j f ((i, v) ∷ m) =
      ground (arith, str_eq_iff k j, str_eq_iff i k, str_eq_iff i j, lookup-update k j f m)

  -- Whether the value at a key is there and passes a test, as a number.
  abbrev pub bit_at : (V → Bool) → Option V → ℕ
  bit_at p none = 0
  bit_at p (some v) = bit (p v)

  -- A write moves a count by what it changes at its key.
  pub count_values-update :
      (p : V → Bool) (k : String) (f : Option V → V) (m : Map V)
      → count_values p (update k f m) + bit_at p (lookup k m)
        ≡ count_values p m + bit (p (f (lookup k m)))
  unfolding lookup update
  count_values-update p k f [] = ground arith
  count_values-update p k f ((j, v) ∷ m) = ground (arith, count_values-update p k f m)

  pub lookup-insert :
      (k j : String) (v : V) (m : Map V)
      → lookup j (insert k v m) ≡ (if str_eq k j then some v else lookup j m)
  unfolding insert
  lookup-insert k j v m = lookup-update k j (λ _. v) m

  -- No key stands twice.
  abbrev pub Unique : Map V → Type ℓ
  Unique [] = Unit
  Unique ((k, v) ∷ m) = (lookup k m ≡ none) × Unique m

  pub update-Unique : (k : String) (f : Option V → V) (m : Map V) → Unique m → Unique (update k f m)
  unfolding update lookup
  update-Unique k f [] u = (refl, tt)
  update-Unique k f ((j, v) ∷ m) u =
      ground (arith, str_eq_iff j k, str_eq_iff k j, lookup-update k j f m, update-Unique k f m u.1)

  pub insert-Unique : (k : String) (v : V) (m : Map V) → Unique m → Unique (insert k v m)
  unfolding insert
  insert-Unique k v m u = update-Unique k (λ _. v) m u
