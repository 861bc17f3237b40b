-- ===== src/Tests/Scaling.antt =====
-- Scaling up and down, reclaiming and provisioning.
use oxide_gha_runner_scale_s.Prelude.{
  ℕ, List, ◌≡◌, ◌≤◌, ◌+◌, ◌-◌, ◌*◌, ◌%◌, ◌<◌, ◌⊎◌, refl, [], ◌∷◌, max, min, length, arith, count_if,
  starts_with,
}
use oxide_gha_runner_scale_s.GoMap.{count_values}
use oxide_gha_runner_scale_s.Scaler.Config.{bytes_per_gib}
use oxide_gha_runner_scale_s.Scaler.Runner.{instance_count, active_runner_count}
use oxide_gha_runner_scale_s.Scaler.Names.{name_prefix}
use oxide_gha_runner_scale_s.Scaler.Provision.{
  Worker, run_workers, run_schedule, new_workers, boot_disk_size,
}
use oxide_gha_runner_scale_s.Scaler.Provision.Requests.{creations, undone}
use oxide_gha_runner_scale_s.Scaler.Provision.Places.{run_schedule_places}
use oxide_gha_runner_scale_s.Scaler.Provision.Finish.{run_workers-done}
use oxide_gha_runner_scale_s.Scaler.Provision.Sizes.{boot_disk_size_lem}
use oxide_gha_runner_scale_s.Scaler.Capacity.{
  scale_up, scale_down, cancel_pending_scale_downs, can_reclaim,
}
use oxide_gha_runner_scale_s.Scaler.Capacity.Bound.{scale_up_bounded}
use oxide_gha_runner_scale_s.Scaler.Capacity.Reclaim.{cancel_pending_scale_downs-active}
use oxide_gha_runner_scale_s.Scaler.Capacity.Floor.{scale_down-floor}
use oxide_gha_runner_scale_s.Scaler.Reconcile.{reconcile}
use oxide_gha_runner_scale_s.Scaler.Reconcile.Bound.{reconcile-instance_count}
use oxide_gha_runner_scale_s.Scaler.Reconcile.Creations.{reconcile-creations}
use oxide_gha_runner_scale_s.Scaler.Provision.Counted.{in_flight}
use oxide_gha_runner_scale_s.Tests.Fixtures.{
  granting, granting-RangeVisitsAll, scaler, draining, state, image, instance_named, disk_named,
}

reconcile-instance_count_example :
    instance_count (reconcile granting scaler state []).0.2.runners
    ≤ max
        (count_if
          (λ i. starts_with i.name (name_prefix granting scaler))
          (instance_named "other" ∷ []))
        3
reconcile-instance_count_example =
    reconcile-instance_count granting scaler state [] (instance_named "other" ∷ [])
      (disk_named "other" ∷ []) granting-RangeVisitsAll refl refl

-- Two runners are created for a demand of one and a minimum of one.
reconcile_creates : instance_count (reconcile granting scaler state []).0.2.runners ≡ 2
unfolding reconcile instance_count
reconcile_creates = refl

reconcile-creations_example : creations (reconcile granting draining state []).1 ≤ creations [] + 0
reconcile-creations_example = reconcile-creations granting draining state []

scale_up_bounded_example :
    let (res, l') = scale_up granting scaler state.runners 1 4 [] in
    (instance_count res.1 ≤ max (instance_count state.runners) 3)
    × (creations l' ≤ creations [] + (3 - instance_count state.runners))
    × (creations l' ≤ creations [] + (4 - 1))
scale_up_bounded_example = scale_up_bounded granting scaler state.runners 1 4 []

run_workers-done_example :
    (length (run_workers granting scaler image 7 []).0 ≡ 7)
    × (undone (run_workers granting scaler image 7 []).0 ≡ 0)
run_workers-done_example = run_workers-done granting scaler image 7 []

-- Seven goroutines, of which six take their first step.
abbrev six_started : ℕ × List Worker
six_started =
    (run_schedule granting scaler image (0 ∷ 1 ∷ 2 ∷ 3 ∷ 4 ∷ 5 ∷ []) 0
      (new_workers granting scaler [] 7 0) []).0

run_schedule_places_example :
    (in_flight six_started.1 ≤ 5) × (six_started.0 ≡ in_flight six_started.1)
run_schedule_places_example =
    run_schedule_places granting scaler image 7 (0 ∷ 1 ∷ 2 ∷ 3 ∷ 4 ∷ 5 ∷ []) [] []

-- The sixth goroutine finds the channel full.
channel_full : six_started.0 ≡ 5
unfolding run_schedule new_workers
channel_full = refl

boot_disk_size_lem_example :
    let disk = boot_disk_size 2 3000000000 in
    (disk % bytes_per_gib ≡ 0)
    × (3000000000 ≤ disk)
    × (2 * bytes_per_gib ≤ disk)
    × ((disk ≡ 2 * bytes_per_gib) ⊎ (disk < 3000000000 + bytes_per_gib))
boot_disk_size_lem_example = boot_disk_size_lem 2 3000000000 (omega arith) (omega arith)

cancel_pending_scale_downs-active_example :
    active_runner_count (cancel_pending_scale_downs granting state.runners 2 []).0
    ≡ active_runner_count state.runners
      + min 2 (count_values (can_reclaim 1000000000000000) state.runners)
cancel_pending_scale_downs-active_example =
    cancel_pending_scale_downs-active granting state.runners 2 [] granting-RangeVisitsAll

one_left :
    1
    ≤ active_runner_count
        (scale_down granting state.runners (active_runner_count state.runners) 1 []).0.1
unfolding active_runner_count
one_left = scale_down-floor granting state.runners 1 [] (omega arith)
