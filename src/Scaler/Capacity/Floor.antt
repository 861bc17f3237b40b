-- ===== src/Scaler/Capacity/Floor.antt =====
-- Scaling down never leads below the target.
use oxide_gha_runner_scale_s.Prelude.{
  ℕ, String, ◌+◌, ◌-◌, ◌≤◌, [], ◌∷◌, List, arith, length, take, length-take,
}
use oxide_gha_runner_scale_s.GoMap.{Map, lookup, insert, count_values-update}
use oxide_gha_runner_scale_s.GoTime.{Time, zero_time}
use oxide_gha_runner_scale_s.Api.{Log}
use oxide_gha_runner_scale_s.Scaler.Runner.{
  Runner, active, active_runner_count, or_new_runner, cancelable,
}
use oxide_gha_runner_scale_s.Scaler.World.{World}
use oxide_gha_runner_scale_s.Scaler.Mark.{mark_for_teardown}
use oxide_gha_runner_scale_s.Scaler.Capacity.{
  candidates, sort_by_age, mark_selected, scale_down, earlier, removal_after,
}

-- A write takes away at most one active runner.
insert-active :
    (k : String) (r : Runner) (m : Map Runner)
    → active_runner_count m ≤ active_runner_count (insert k r m) + 1
unfolding insert active_runner_count
insert-active k r m = ground (arith, count_values-update active k (λ _. r) m)

module _ (w : World) where
  mark_selected-active :
      (xs : List (String × Runner)) (next : Time) (m : Map Runner) (l : Log)
      → active_runner_count m ≤ active_runner_count (mark_selected w xs next m l).0.1 + length xs
  unfolding mark_selected
  mark_selected-active [] next m l = omega arith
  mark_selected-active ((k, _) ∷ xs) next m l =
      let (r, l') = mark_for_teardown w cancelable (or_new_runner k (lookup k m)) l in
      omega (
        arith,
        insert-active k r m,
        mark_selected-active xs (earlier next (removal_after r.teardown)) (insert k r m) l',
      )

-- Scaling down from the active runners to a target leaves at least the target active: whatever the
-- clock says and whichever runners are candidates.
pub scale_down-floor :
    (w : World) (m : Map Runner) (target : ℕ) (l : Log)
    → target ≤ active_runner_count m
    → target ≤ active_runner_count (scale_down w m (active_runner_count m) target l).0.1
unfolding scale_down
scale_down-floor w m target l above =
    let (found, l') = candidates w (w.range l m) l in
    let chosen = take (active_runner_count m - target) (sort_by_age found) in
    omega (
      arith,
      mark_selected-active w chosen zero_time m l',
      length-take (active_runner_count m - target) (sort_by_age found),
    )
