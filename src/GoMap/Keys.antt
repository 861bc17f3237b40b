-- ===== src/GoMap/Keys.antt =====
-- The keys of a map, counted, so that the order of a loop does not matter.
use oxide_gha_runner_scale_s.Prelude.{
  ℕ, String, Bool, false, Option, some, [], ◌∷◌, ◌≡◌, ◌≤◌, arith, count_if, str_eq, str_eq_iff,
  if◌then◌else◌, max,
}
use oxide_gha_runner_scale_s.GoMap.Defs.{Map, lookup, update}

module _ {ℓ} {V : Type ℓ} where
  abbrev pub count_key : String → Map V → ℕ
  count_key j m = count_if (λ e. str_eq e.0 j) m

  pub count_key-update :
      (j k : String) (f : Option V → V) (m : Map V)
      → count_key j (update k f m) ≡ (if str_eq k j then max 1 (count_key j m) else count_key j m)
  unfolding update
  count_key-update j k f [] = ground arith
  count_key-update j k f ((i, v) ∷ m) =
      ground (arith, str_eq_iff k j, str_eq_iff i k, str_eq_iff i j, count_key-update j k f m)

  module _ (bad : String × V → Bool) where
    -- A write that brings in no bad entry.
    pub count_bad-update :
        (k : String) (f : Option V → V) (m : Map V)
        → bad (k, f (lookup k m)) ≡ false
        → count_if bad (update k f m) ≤ count_if bad m
    unfolding update lookup
    count_bad-update k f [] fine = ground arith
    count_bad-update k f ((i, v) ∷ m) fine = ground (arith, str_eq_iff i k, count_bad-update k f m)

    -- What is found in a map without bad entries is not bad.
    pub lookup-fine :
        (k : String) (v : V) (m : Map V)
        → count_if bad m ≡ 0
        → lookup k m ≡ some v
        → bad (k, v) ≡ false
    unfolding lookup
    lookup-fine k v [] none_bad found = cc
    lookup-fine k v ((i, u) ∷ m) none_bad found = ground (arith, str_eq_iff i k, lookup-fine k v m)
