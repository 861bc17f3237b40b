-- ===== src/Scaler/Capacity/Exact.antt =====
-- How many runners scaling down marks.
use oxide_gha_runner_scale_s.Prelude.{
  ℕ, String, Bool, true, false, not, ◌+◌, ◌-◌, ◌≡◌, ◌≤◌, refl, arith, List, [], ◌∷◌, count_if,
  count_if-perm, str_eq, str_eq_iff, length, take, min, length-take,
}
use oxide_gha_runner_scale_s.GoMap.{
  Map, lookup, insert, lookup-insert, count_key, count_values-update,
}
use oxide_gha_runner_scale_s.GoTime.{Time, zero_time}
use oxide_gha_runner_scale_s.Api.{Log}
use oxide_gha_runner_scale_s.Scaler.Runner.{
  Runner, active, active_runner_count, cancelable, or_new_runner,
}
use oxide_gha_runner_scale_s.Scaler.World.{World, RangeVisitsAll}
use oxide_gha_runner_scale_s.Scaler.Mark.{mark_for_teardown}
use oxide_gha_runner_scale_s.Scaler.Sound.{IsView}
use oxide_gha_runner_scale_s.Scaler.Capacity.{
  is_candidate, candidates, sort_by_age, mark_selected, scale_down, earlier, removal_after,
}
use oxide_gha_runner_scale_s.Scaler.Capacity.Found.{
  sort_by_age-count, take-count, chosen-count, found_at,
}
use oxide_gha_runner_scale_s.Scaler.Capacity.Oldest.{sort_by_age-length}

-- An entry at whose name no active runner is found.
abbrev inactive_in : Map Runner → String × Runner → Bool
inactive_in m e = not (found_at active m e.0)

mark-inactive :
    (w : World) (r : Runner) (l : Log) → active (mark_for_teardown w cancelable r l).0 ≡ false
unfolding mark_for_teardown active
mark-inactive w r l = ground arith

-- A write at another name.
insert-inactive_in :
    (j : String) (r : Runner) (m xs : Map Runner)
    → count_key j xs ≡ 0
    → count_if (inactive_in (insert j r m)) xs ≡ count_if (inactive_in m) xs
insert-inactive_in j r m [] none_there = refl
insert-inactive_in j r m ((k, u) ∷ xs) none_there =
    ground
      (arith, str_eq_iff j k, str_eq_iff k j, lookup-insert j k r m, insert-inactive_in j r m xs)

-- An active runner that becomes inactive.
insert-active_runner_count :
    (j : String) (r : Runner) (m : Map Runner)
    → found_at active m j ≡ true
    → active r ≡ false
    → active_runner_count (insert j r m) + 1 ≡ active_runner_count m
unfolding active_runner_count insert active
insert-active_runner_count j r m was is = ground (arith, count_values-update active j (λ _. r) m)

module _ (w : World) where
  mark_selected-active_runner_count :
      (xs : List (String × Runner)) (next : Time) (m : Map Runner) (l : Log)
      → ((k : String) → count_key k xs ≤ 1)
      → count_if (inactive_in m) xs ≡ 0
      → active_runner_count (mark_selected w xs next m l).0.1 + length xs ≡ active_runner_count m
  unfolding mark_selected
  mark_selected-active_runner_count [] next m l once all_active = omega arith
  mark_selected-active_runner_count ((j, u) ∷ xs) next m l once all_active =
      let (r, l') = mark_for_teardown w cancelable (or_new_runner j (lookup j m)) l in
      let single : count_key j xs ≡ 0 = ground (arith, once j, str_eq_iff j j) in
      omega (
        arith,
        insert-active_runner_count j r m (ground arith) (mark-inactive w _ l),
        mark_selected-active_runner_count xs (earlier next (removal_after r.teardown))
            (insert j r m) l' (λ k. omega (arith, once k))
            (omega (arith, insert-inactive_in j r m xs single, all_active)),
      )

  pub is_candidate-active : (r : Runner) (l : Log) → (is_candidate w r l).0 ≡ true → active r ≡ true
  unfolding is_candidate active
  is_candidate-active r l good = ground arith

  pub candidates-count_key :
      (k : String) (m : Map Runner) (l : Log) → count_key k (candidates w m l).0 ≤ count_key k m
  unfolding candidates
  candidates-count_key k [] l = omega arith
  candidates-count_key k ((j, r) ∷ m) l =
      let (good, l') = is_candidate w r l in ground (arith, candidates-count_key k m l')

-- Scaling down from the active runners to a target marks as many of them as are above the target, or
-- every candidate if there are fewer. No name stands twice in the map, and a loop over it visits each
-- entry once.
pub scale_down-active_runner_count :
    (w : World) (m : Map Runner) (target : ℕ) (l : Log)
    → RangeVisitsAll w
    → IsView m
    → active_runner_count (scale_down w m (active_runner_count m) target l).0.1
        + min (active_runner_count m - target) (length (candidates w (w.range l m) l).0)
      ≡ active_runner_count m
unfolding scale_down IsView
scale_down-active_runner_count w m target l all (once, sound) =
    let n = active_runner_count m - target in
    let (found, l') = candidates w (w.range l m) l in
    omega (
      arith,
      mark_selected-active_runner_count w (take n (sort_by_age found)) zero_time m l'
          (λ k. omega (
            arith,
            once k,
            take-count (λ e. str_eq e.0 k) n (sort_by_age found),
            sort_by_age-count (λ e. str_eq e.0 k) found,
            candidates-count_key w k (w.range l m) l,
            count_if-perm (λ e. str_eq e.0 k) (all l m),
          ))
          (chosen-count active w (is_candidate-active w) m n l all once),
      length-take n (sort_by_age found),
      sort_by_age-length found,
    )
