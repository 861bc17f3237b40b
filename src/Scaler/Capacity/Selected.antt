-- ===== src/Scaler/Capacity/Selected.antt =====
-- Scaling down marks the oldest candidates.
use oxide_gha_runner_scale_s.Prelude.{
  ap, ℕ, String, Bool, true, false, not, ◌+◌, ◌-◌, ◌≡◌, ◌≤◌, refl, ◌∙◌, arith, List, [], ◌∷◌, ◌++◌,
  count_if, count_if-perm, count_if-append, str_eq, str_eq_iff, length, take, drop, min, All, Perm,
}
use oxide_gha_runner_scale_s.GoMap.{Map, lookup, insert, lookup-insert, count_key}
use oxide_gha_runner_scale_s.GoTime.{Time, zero_time}
use oxide_gha_runner_scale_s.Api.{Log}
use oxide_gha_runner_scale_s.Scaler.Runner.{Runner, active, cancelable, or_new_runner, has_teardown}
use oxide_gha_runner_scale_s.Scaler.World.{World, RangeVisitsAll}
use oxide_gha_runner_scale_s.Scaler.Mark.{mark_for_teardown}
use oxide_gha_runner_scale_s.Scaler.Sound.{IsView}
use oxide_gha_runner_scale_s.Scaler.Capacity.{
  candidates, sort_by_age, mark_selected, scale_down, earlier, removal_after,
}
use oxide_gha_runner_scale_s.Scaler.Capacity.Found.{found_at, candidates-found, sort_by_age-count}
use oxide_gha_runner_scale_s.Scaler.Capacity.Exact.{candidates-count_key, is_candidate-active}
use oxide_gha_runner_scale_s.Scaler.Capacity.Oldest.{
  IsKnown, IsNoYounger, sort_by_age-split, take-drop,
}

-- Whether the runner found at a name has a teardown.
abbrev pub marked_at : Map Runner → String → Bool
marked_at m k = has_teardown (or_new_runner k (lookup k m))

abbrev pub IsMarkedIn : Map Runner → String × Runner → Type 0
IsMarkedIn m e = marked_at m e.0 ≡ true

abbrev pub IsUnmarkedIn : Map Runner → String × Runner → Type 0
IsUnmarkedIn m e = marked_at m e.0 ≡ false

marks :
    (w : World) (r : Runner) (l : Log) → has_teardown (mark_for_teardown w cancelable r l).0 ≡ true
unfolding mark_for_teardown
marks w r l = ground arith

insert-marked_at :
    (j k : String) (r : Runner) (m : Map Runner)
    → has_teardown r ≡ true
    → marked_at m k ≡ true
    → marked_at (insert j r m) k ≡ true
insert-marked_at j k r m marked before = ground (arith, lookup-insert j k r m)

insert-marked_at_key :
    (j : String) (r : Runner) (m : Map Runner)
    → has_teardown r ≡ true
    → marked_at (insert j r m) j ≡ true
insert-marked_at_key j r m marked = ground (arith, lookup-insert j j r m, str_eq_iff j j)

insert-marked_at_other :
    (j k : String) (r : Runner) (m : Map Runner)
    → str_eq j k ≡ false
    → marked_at (insert j r m) k ≡ marked_at m k
insert-marked_at_other j k r m other = ground (arith, lookup-insert j k r m)

module _ (w : World) where
  mark_selected-keeps :
      (xs : List (String × Runner)) (next : Time) (m : Map Runner) (l : Log) (k : String)
      → marked_at m k ≡ true
      → marked_at (mark_selected w xs next m l).0.1 k ≡ true
  unfolding mark_selected
  mark_selected-keeps [] next m l k before = before
  mark_selected-keeps ((j, _) ∷ xs) next m l k before =
      let (r, l') = mark_for_teardown w cancelable (or_new_runner j (lookup j m)) l in
      mark_selected-keeps xs (earlier next (removal_after r.teardown)) (insert j r m) l' k
        (insert-marked_at j k r m (marks w (or_new_runner j (lookup j m)) l) before)

  mark_selected-IsMarkedIn :
      (xs : List (String × Runner)) (next : Time) (m : Map Runner) (l : Log)
      → All (IsMarkedIn (mark_selected w xs next m l).0.1) xs
  unfolding mark_selected
  mark_selected-IsMarkedIn [] next m l = tt
  mark_selected-IsMarkedIn ((j, _) ∷ xs) next m l =
      let (r, l') = mark_for_teardown w cancelable (or_new_runner j (lookup j m)) l in
      let next' = earlier next (removal_after r.teardown) in
      (
        mark_selected-keeps xs next' (insert j r m) l' j
            (insert-marked_at_key j r m (marks w (or_new_runner j (lookup j m)) l)),
        mark_selected-IsMarkedIn xs next' (insert j r m) l',
      )

  mark_selected-other :
      (xs : List (String × Runner)) (next : Time) (m : Map Runner) (l : Log) (k : String)
      → count_key k xs ≡ 0
      → marked_at (mark_selected w xs next m l).0.1 k ≡ marked_at m k
  unfolding mark_selected
  mark_selected-other [] next m l k none_there = refl
  mark_selected-other ((j, _) ∷ xs) next m l k none_there =
      let (r, l') = mark_for_teardown w cancelable (or_new_runner j (lookup j m)) l in
      mark_selected-other xs (earlier next (removal_after r.teardown)) (insert j r m) l' k
        (omega (arith, none_there))
      ∙ insert-marked_at_other j k r m (ground arith)

  -- Entries whose names are not selected and where no active runner is missing stay unmarked.
  mark_selected-IsUnmarkedIn :
      (xs ys : List (String × Runner)) (next : Time) (m : Map Runner) (l : Log)
      → ((k : String) → count_key k xs + count_key k ys ≤ 1)
      → count_if (λ e. not (found_at active m e.0)) ys ≡ 0
      → All (IsUnmarkedIn (mark_selected w xs next m l).0.1) ys
  unfolding active
  mark_selected-IsUnmarkedIn xs [] next m l once all_active = tt
  mark_selected-IsUnmarkedIn xs ((k, r) ∷ ys) next m l once all_active =
      let apart : count_key k xs ≡ 0 = ground (arith, once k, str_eq_iff k k) in
      let unmarked : marked_at m k ≡ false = ground arith in
      (
        mark_selected-other xs next m l k apart ∙ unmarked,
        mark_selected-IsUnmarkedIn xs ys next m l (λ j. omega (arith, once j)) (ground arith),
      )

split-count :
    (p : String × Runner → Bool) (n : ℕ) (found : List (String × Runner))
    → count_if p (take n (sort_by_age found)) + count_if p (drop n (sort_by_age found))
      ≡ count_if p found
split-count p n found =
    let sorted = sort_by_age found in
    omega (
      arith,
      count_if-append p (take n sorted) (drop n sorted),
      ap (count_if p) (take-drop n sorted),
      sort_by_age-count p found,
    )

-- Scaling down splits the candidates into those that it marks and the others: as many are marked as
-- active runners are above the target, or all candidates if these are fewer; every marked one has a
-- teardown afterwards, none of the others has one, and each marked one was created no later than each
-- of the others. No name stands twice in the map, a loop over it visits each entry once, and the
-- creation time of every candidate is known.
pub scale_down-oldest :
    (w : World) (m : Map Runner) (live target : ℕ) (l : Log)
    → RangeVisitsAll w
    → IsView m
    → All IsKnown (candidates w (w.range l m) l).0
    → let after = (scale_down w m live target l).0.1 in
      let found = (candidates w (w.range l m) l).0 in
      (chosen : List (String × Runner)) × (others : List (String × Runner)) × Perm
        (chosen ++ others)
        found
      × (length chosen ≡ min (live - target) (length found))
      × All (IsMarkedIn after) chosen
      × All (IsUnmarkedIn after) others
      × All (λ x. All (IsNoYounger x) others) chosen
unfolding scale_down IsView
scale_down-oldest w m live target l all (once, sound) known =
    let n = live - target in
    let (found, l') = candidates w (w.range l m) l in
    let (same, long, oldest) = sort_by_age-split n found known in
    let fails = λ (e : String × Runner). not (found_at active m e.0) in
    (
      take n (sort_by_age found),
      drop n (sort_by_age found),
      same,
      long,
      mark_selected-IsMarkedIn w (take n (sort_by_age found)) zero_time m l',
      mark_selected-IsUnmarkedIn w (take n (sort_by_age found)) (drop n (sort_by_age found))
          zero_time m l'
          (λ k. omega (
            arith,
            once k,
            split-count (λ e. str_eq e.0 k) n found,
            candidates-count_key w k (w.range l m) l,
            count_if-perm (λ e. str_eq e.0 k) (all l m),
          ))
          (omega (
            arith,
            split-count fails n found,
            candidates-found active w (is_candidate-active w) m l all once,
          )),
      oldest,
    )
