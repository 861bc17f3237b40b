-- ===== src/Scaler/Capacity/Found.antt =====
-- The runners that scaling down selects are found in the map under their names.
use oxide_gha_runner_scale_s.Prelude.{
  ℕ, zero, suc, String, Bool, true, not, ◌&&◌, ◌≡◌, ◌≤◌, refl, arith, List, [], ◌∷◌, count_if,
  count_if-perm, str_eq_iff, take,
}
use oxide_gha_runner_scale_s.GoMap.{Map, lookup, count_key}
use oxide_gha_runner_scale_s.Api.{Log}
use oxide_gha_runner_scale_s.Scaler.Runner.{Runner, or_new_runner}
use oxide_gha_runner_scale_s.Scaler.World.{World, RangeVisitsAll}
use oxide_gha_runner_scale_s.Scaler.Capacity.{is_candidate, candidates, insert_by_age, sort_by_age}

insert_by_age-count :
    (p : String × Runner → Bool) (x : String × Runner) (xs : List (String × Runner))
    → count_if p (insert_by_age x xs) ≡ count_if p (x ∷ xs)
unfolding insert_by_age
insert_by_age-count p x [] = refl
insert_by_age-count p x (y ∷ ys) = ground (arith, insert_by_age-count p x ys)

pub sort_by_age-count :
    (p : String × Runner → Bool) (xs : List (String × Runner))
    → count_if p (sort_by_age xs) ≡ count_if p xs
unfolding sort_by_age
sort_by_age-count p [] = refl
sort_by_age-count p (x ∷ xs) =
    omega (arith, insert_by_age-count p x (sort_by_age xs), sort_by_age-count p xs)

pub take-count :
    (p : String × Runner → Bool) (n : ℕ) (xs : List (String × Runner))
    → count_if p (take n xs) ≤ count_if p xs
take-count p zero xs = omega arith
take-count p (suc n) [] = omega arith
take-count p (suc n) (x ∷ xs) = omega (arith, take-count p n xs)

-- A test of runners, which every candidate passes.
module _ (p : Runner → Bool) where
  -- Whether the runner at a name passes.
  abbrev pub found_at : Map Runner → String → Bool
  found_at m k = p (or_new_runner k (lookup k m))

  -- An entry that passes, although the runner found at its name does not pass.
  abbrev is_hidden : Map Runner → String × Runner → Bool
  is_hidden m (k, r) = p r && not (found_at m k)

  -- Where the key of the first entry does not come again, the entry hides none.
  hidden_behind :
      (k : String) (r : Runner) (m xs : Map Runner)
      → count_key k xs ≡ 0
      → count_if (is_hidden ((k, r) ∷ m)) xs ≡ count_if (is_hidden m) xs
  unfolding lookup
  hidden_behind k r m [] once = refl
  hidden_behind k r m ((j, u) ∷ xs) once =
      ground (arith, str_eq_iff k j, str_eq_iff j k, hidden_behind k r m xs)

  none_hidden : (m : Map Runner) → ((k : String) → count_key k m ≤ 1) → count_if (is_hidden m) m ≡ 0
  unfolding lookup
  none_hidden [] once = refl
  none_hidden ((k, r) ∷ m) once = ground (
    arith,
    str_eq_iff k k,
    once k,
    hidden_behind k r m m,
    none_hidden m (λ j. ground (arith, once j)),
  )

  module _ (w : World)
      (passes : (r : Runner) (l : Log) → (is_candidate w r l).0 ≡ true → p r ≡ true) where
    -- The names of the candidates are those of runners that pass.
    candidates-count :
        (m visited : Map Runner) (l : Log)
        → count_if (λ e. not (found_at m e.0)) (candidates w visited l).0
          ≤ count_if (is_hidden m) visited
    unfolding candidates
    candidates-count m [] l = omega arith
    candidates-count m ((k, r) ∷ visited) l =
        let (good, l') = is_candidate w r l in
        ground (arith, passes r l, candidates-count m visited l')

    -- Every candidate is found under its name, and passes there.
    pub candidates-found :
        (m : Map Runner) (l : Log)
        → RangeVisitsAll w
        → ((k : String) → count_key k m ≤ 1)
        → count_if (λ e. not (found_at m e.0)) (candidates w (w.range l m) l).0 ≡ 0
    candidates-found m l all once = omega (
      arith,
      candidates-count m (w.range l m) l,
      count_if-perm (is_hidden m) (all l m),
      none_hidden m once,
    )

    pub chosen-count :
        (m : Map Runner) (n : ℕ) (l : Log)
        → RangeVisitsAll w
        → ((k : String) → count_key k m ≤ 1)
        → count_if
            (λ e. not (found_at m e.0))
            (take n (sort_by_age (candidates w (w.range l m) l).0))
          ≡ 0
    chosen-count m n l all once =
        let fails = λ (e : String × Runner). not (found_at m e.0) in
        let found = (candidates w (w.range l m) l).0 in
        omega (
          arith,
          take-count fails n (sort_by_age found),
          sort_by_age-count fails found,
          candidates-found m l all once,
        )
