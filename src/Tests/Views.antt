-- ===== src/Tests/Views.antt =====
-- The view of the runners, at concrete inputs.
use oxide_gha_runner_scale_s.Prelude.{
  String, Option, some, none, List, [], ◌∷◌, ◌++◌, ◌≡◌, refl, arith, str_eq_iff, map, Perm, All,
  length,
}
use oxide_gha_runner_scale_s.GoMap.{lookup}
use oxide_gha_runner_scale_s.GoTime.{Time}
use oxide_gha_runner_scale_s.Scaler.Runner.{Runner}
use oxide_gha_runner_scale_s.Scaler.Capacity.{scale_down, sort_by_age}
use oxide_gha_runner_scale_s.Scaler.Capacity.Idle.{IsScaledDown, marked_until, scale_down-idle}
use oxide_gha_runner_scale_s.Scaler.Capacity.Oldest.{IsNoYounger}
use oxide_gha_runner_scale_s.Scaler.Capacity.Selected.{IsMarkedIn, IsUnmarkedIn, scale_down-oldest}
use oxide_gha_runner_scale_s.Scaler.Reconcile.{reconcile}
use oxide_gha_runner_scale_s.Scaler.Sound.{IsView}
use oxide_gha_runner_scale_s.Scaler.Sound.Cycle.{reconcile-IsView}
use oxide_gha_runner_scale_s.Scaler.Run.Invariant.{run-IsView}
use oxide_gha_runner_scale_s.Prelude.{min, ◌+◌, ◌-◌}
use oxide_gha_runner_scale_s.Scaler.Runner.{active_runner_count}
use oxide_gha_runner_scale_s.Scaler.Capacity.{candidates}
use oxide_gha_runner_scale_s.Scaler.Capacity.Exact.{scale_down-active_runner_count}
use oxide_gha_runner_scale_s.Tests.Fixtures.{
  granting, granting-RangeVisitsAll, scaler, state, idle, instance_named,
}
use oxide_gha_runner_scale_s.Tests.Running.{waiting_system, waiting_system-Reach}

state-IsView : IsView state.runners
unfolding IsView
state-IsView = (
  λ k. ground (
    arith,
    str_eq_iff "a" k,
    str_eq_iff "b" k,
    str_eq_iff "c" k,
    str_eq_iff "a" "b",
    str_eq_iff "a" "c",
    str_eq_iff "b" "c",
  ),
  refl,
)

reconciled-IsView : IsView (reconcile granting scaler state []).0.2.runners
reconciled-IsView = reconcile-IsView granting scaler state [] granting-RangeVisitsAll state-IsView

run-IsView_example : IsView waiting_system.state.runners
run-IsView_example = run-IsView granting scaler [] granting-RangeVisitsAll waiting_system-Reach

-- Of the three runners only "b" is idle, and it is marked.
scale_down-idle_example :
    IsScaledDown 1000000000000000
      (lookup "b" state.runners)
      (lookup "b" (scale_down granting state.runners 1 0 []).0.1)
scale_down-idle_example =
    scale_down-idle granting 1000000000000000 state.runners 1 0 [] "b" (λ l. omega arith)
      granting-RangeVisitsAll state-IsView

scale_down-active_runner_count_example :
    active_runner_count
        (scale_down granting state.runners (active_runner_count state.runners) 0 []).0.1
      + min
          (active_runner_count state.runners - 0)
          (length (candidates granting state.runners []).0)
    ≡ active_runner_count state.runners
scale_down-active_runner_count_example =
    scale_down-active_runner_count granting state.runners 0 [] granting-RangeVisitsAll state-IsView

scale_down_marks :
    lookup "b" (scale_down granting state.runners 1 0 []).0.1
    ≡ some (marked_until 1000005000000000 (idle "b"))
unfolding scale_down lookup
scale_down_marks = refl

-- A runner created at a time, or at an unknown one.
abbrev created_at : String → Option Time → String × Runner
created_at name t = (
  name,
  record (idle name) { instance_of = some (record (instance_named name) { time_created = t }) },
)

abbrev found : List (String × Runner)
found = created_at "a" (some 5) ∷ created_at "b" (some 9) ∷ created_at "c" (some 3) ∷ []

found-IsView : IsView found
unfolding IsView
found-IsView = (
  λ k. ground (
    arith,
    str_eq_iff "a" k,
    str_eq_iff "b" k,
    str_eq_iff "c" k,
    str_eq_iff "a" "b",
    str_eq_iff "a" "c",
    str_eq_iff "b" "c",
  ),
  refl,
)

scale_down-oldest_example :
    let after = (scale_down granting found 3 1 []).0.1 in
    let candidates_found = (candidates granting found []).0 in
    (chosen : List (String × Runner)) × (others : List (String × Runner)) × Perm
      (chosen ++ others)
      candidates_found
    × (length chosen ≡ min (3 - 1) (length candidates_found))
    × All (IsMarkedIn after) chosen
    × All (IsUnmarkedIn after) others
    × All (λ x. All (IsNoYounger x) others) chosen
unfolding candidates
scale_down-oldest_example =
    scale_down-oldest granting found 3 1 [] granting-RangeVisitsAll found-IsView
      (refl, (refl, (refl, tt)))

oldest_first : map (λ e. e.0) (sort_by_age found) ≡ "c" ∷ "a" ∷ "b" ∷ []
unfolding sort_by_age
oldest_first = refl

-- An unknown time between two known ones keeps the older runner behind the younger one.
unknown_time :
    sort_by_age (created_at "a" (some 5) ∷ created_at "b" none ∷ created_at "c" (some 3) ∷ [])
    ≡ created_at "a" (some 5) ∷ created_at "b" none ∷ created_at "c" (some 3) ∷ []
unfolding sort_by_age
unknown_time = refl
