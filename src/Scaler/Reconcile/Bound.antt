-- ===== src/Scaler/Reconcile/Bound.antt =====
-- The number of instances over one cycle.
use oxide_gha_runner_scale_s.Prelude.{
  ℕ, zero, suc, ◌-◌, ◌≡◌, ◌≤◌, refl, ap, ◌∙◌, [], ◌∷◌, List, bit, arith, count_if, count_if-perm,
  max, starts_with, ℤ, pos, negsuc,
}
use oxide_gha_runner_scale_s.GoMap.{Map}
use oxide_gha_runner_scale_s.GoTime.{Time, zero_time}
use oxide_gha_runner_scale_s.Api.{
  Log, clock_read, Instance, Disk, ok, instances_listed, disks_listed,
}
use oxide_gha_runner_scale_s.Api.Effect.Loops.{for_each-count}
use oxide_gha_runner_scale_s.Scaler.Runner.{
  Runner, ReconcileState, has_instance, instance_count, prune, gone, active_runner_count,
}
use oxide_gha_runner_scale_s.Scaler.World.{World, Scaler, RangeVisitsAll}
use oxide_gha_runner_scale_s.Scaler.Mark.{
  visit_instance, visit_disk, audit_runner, audit_loop, mark_instances_for_teardown,
  mark_disks_for_teardown, mark_registrations_for_teardown,
}
use oxide_gha_runner_scale_s.Scaler.Teardown.{teardown}
use oxide_gha_runner_scale_s.Scaler.Capacity.{reclaim, left_after, can_reclaim}
use oxide_gha_runner_scale_s.Scaler.Capacity.Bound.{scale_up_bounded, scale_down-instance_count}
use oxide_gha_runner_scale_s.Scaler.Names.{name_prefix}
use oxide_gha_runner_scale_s.Scaler.Handler.{process_job_events}
use oxide_gha_runner_scale_s.Scaler.Observe.{observed, observe_runners, owned_by_name}
use oxide_gha_runner_scale_s.Scaler.Observe.Count.{observed-instance_count}
use oxide_gha_runner_scale_s.Scaler.Reconcile.{
  audit, plan, reclaim_for, teardown_loop, drive_teardowns, converge, reconcile_observed,
  request_reconcile, target_count, reconcile,
}

module _ (w : World) where
  visit_instance-instance :
      (r : Runner) (l : Log) → has_instance (visit_instance w r l).0 ≡ has_instance r
  unfolding visit_instance
  visit_instance-instance r l = ground arith

  visit_disk-instance : (r : Runner) (l : Log) → has_instance (visit_disk w r l).0 ≡ has_instance r
  unfolding visit_disk
  visit_disk-instance r l = ground arith

  audit_runner-instance :
      (r : Runner) (l : Log) → has_instance (audit_runner w r l).0.1 ≡ has_instance r
  unfolding audit_runner
  audit_runner-instance r l = ground arith

  teardown-instance :
      (s : Scaler) (r : Runner) (l : Log)
      → bit (has_instance (teardown w s r l).0.1) ≤ bit (has_instance r)
  unfolding teardown
  teardown-instance s r l = ground arith

  audit_loop-instance_count :
      (m : Map Runner) (l : Log) → instance_count (audit_loop w m l).0.1 ≡ instance_count m
  unfolding audit_loop instance_count
  audit_loop-instance_count [] l = refl
  audit_loop-instance_count ((k, r) ∷ m) l = omega (
    arith,
    ap bit (audit_runner-instance r l),
    audit_loop-instance_count m (audit_runner w r l).1,
  )

  teardown_loop-instance_count :
      (s : Scaler) (next : Time) (m : Map Runner) (l : Log)
      → instance_count (teardown_loop w s next m l).0.1 ≤ instance_count m
  unfolding teardown_loop instance_count
  teardown_loop-instance_count s next [] l = omega arith
  teardown_loop-instance_count s next ((k, r) ∷ m) l =
      let ((at, r'), l') = teardown w s r l in
      omega (
        arith,
        teardown-instance s r l,
        teardown_loop-instance_count s (request_reconcile next at) m l',
      )

prune-instance_count : (m : Map Runner) → instance_count (prune m) ≡ instance_count m
unfolding prune gone instance_count
prune-instance_count [] = refl
prune-instance_count ((k, r) ∷ m) = ground (arith, prune-instance_count m)

reclaim-instance_count :
    (now : Time) (n : ℕ) (m : Map Runner) → instance_count (reclaim now n m) ≡ instance_count m
unfolding reclaim instance_count
reclaim-instance_count now zero m = refl
reclaim-instance_count now (suc n) [] = refl
reclaim-instance_count now (suc n) ((k, r) ∷ m) =
    ground (arith, reclaim-instance_count now (left_after (can_reclaim now r) n) m)

module _ (w : World) (all : RangeVisitsAll w) where
  range-instance_count :
      (l : Log) (m : Map Runner) → instance_count (w.range l m) ≡ instance_count m
  unfolding instance_count
  range-instance_count l m = count_if-perm (λ e. has_instance e.1) (all l m)

  mark_instances-instance_count :
      (m : Map Runner) (l : Log)
      → instance_count (mark_instances_for_teardown w m l).0 ≡ instance_count m
  unfolding mark_instances_for_teardown instance_count
  mark_instances-instance_count m l =
      for_each-count has_instance (visit_instance w) (visit_instance-instance w) (w.range l m) l
      ∙ count_if-perm (λ e. has_instance e.1) (all l m)

  mark_disks-instance_count :
      (m : Map Runner) (l : Log)
      → instance_count (mark_disks_for_teardown w m l).0 ≡ instance_count m
  unfolding mark_disks_for_teardown instance_count
  mark_disks-instance_count m l =
      for_each-count has_instance (visit_disk w) (visit_disk-instance w) (w.range l m) l
      ∙ count_if-perm (λ e. has_instance e.1) (all l m)

  mark_registrations-instance_count :
      (m : Map Runner) (l : Log)
      → instance_count (mark_registrations_for_teardown w m l).0.1 ≡ instance_count m
  unfolding mark_registrations_for_teardown
  mark_registrations-instance_count m l =
      ground (arith, audit_loop-instance_count w (w.range l m) l, range-instance_count l m)

  audit-instance_count :
      (state : ReconcileState) (l : Log)
      → instance_count (audit w state l).0.1.runners ≡ instance_count state.runners
  unfolding audit
  audit-instance_count state l =
      ground (arith, mark_registrations-instance_count state.runners (clock_read (w.now l) ∷ l))

  plan-instance_count :
      (state : ReconcileState) (l : Log)
      → instance_count (plan w state l).0.1.runners ≡ instance_count state.runners
  unfolding plan
  plan-instance_count state l =
      let (m₁, l₁) = mark_instances_for_teardown w state.runners l in
      let (m₂, l₂) = mark_disks_for_teardown w m₁ l₁ in
      audit-instance_count (record state { runners = m₂ }) l₂
      ∙ (mark_disks-instance_count m₁ l₁ ∙ mark_instances-instance_count state.runners l)

  reclaim_for-instance_count :
      (target : ℤ) (m : Map Runner) (l : Log)
      → instance_count (reclaim_for w target m l).0 ≡ instance_count m
  unfolding reclaim_for
  reclaim_for-instance_count (negsuc n) m l = refl
  reclaim_for-instance_count (pos t) m l = ground (
    arith,
    reclaim-instance_count (w.now l) (t - active_runner_count m)
        (w.range (clock_read (w.now l) ∷ l) m),
    range-instance_count (clock_read (w.now l) ∷ l) m,
  )

  drive_teardowns-instance_count :
      (s : Scaler) (next : Time) (m : Map Runner) (l : Log)
      → instance_count (drive_teardowns w s next m l).0.1 ≤ instance_count m
  unfolding drive_teardowns
  drive_teardowns-instance_count s next m l =
      let ((next', m'), l') = teardown_loop w s next (w.range l m) l in
      omega (
        arith,
        prune-instance_count m',
        teardown_loop-instance_count w s next (w.range l m) l,
        range-instance_count l m,
      )

  converge-instance_count :
      (s : Scaler) (target : ℤ) (m : Map Runner) (l : Log)
      → instance_count (converge w s target m l).0.1 ≤ max (instance_count m) s.max_runners
  unfolding converge
  converge-instance_count s (negsuc n) m l = omega arith
  converge-instance_count s (pos t) m l = ground (
    arith,
    (scale_up_bounded w s m (active_runner_count m) t l).0,
    scale_down-instance_count w m (active_runner_count m) t l,
  )

-- After a cycle the runners have at most as many instances as the configured maximum, or as were
-- observed at its beginning if there were more already. This holds for every target, whatever GitHub
-- and Oxide answer, if a loop over the runners visits each of them once.
pub reconcile_observed-instance_count :
    (w : World) (s : Scaler) (state : ReconcileState) (l : Log)
    → RangeVisitsAll w
    → instance_count (reconcile_observed w s state l).0.2.runners
      ≤ max (instance_count state.runners) s.max_runners
unfolding reconcile_observed
reconcile_observed-instance_count w s state l all =
    let ((next₁, planned), l₁) = plan w state l in
    let target = target_count planned.desired_runner_count s.min_runners s.max_runners in
    let (kept, l₂) = reclaim_for w target planned.runners l₁ in
    let ((next₂, driven), l₃) = drive_teardowns w s (request_reconcile zero_time next₁) kept l₂ in
    omega (
      arith,
      plan-instance_count w all state l,
      reclaim_for-instance_count w all target planned.runners l₁,
      drive_teardowns-instance_count w all s (request_reconcile zero_time next₁) kept l₂,
      converge-instance_count w all s target driven l₃,
    )

-- One reconciliation whose two listings succeed leaves at most as many instances in the view as the
-- configured maximum, or as the listing shows with the scaler's prefix if these are more already:
-- whatever was in memory before, whatever the inbox held and whatever GitHub and Oxide answer, if a
-- loop over the runners visits each of them once.
pub reconcile-instance_count :
    (w : World) (s : Scaler) (state : ReconcileState) (l : Log) (is : List Instance)
    (ds : List Disk)
    → RangeVisitsAll w
    → let ((s', state'), l') = process_job_events w s state l in
      w.instance_list l' s.instance_config.project ≡ ok is
      → w.disk_list
          (instances_listed s.instance_config.project (ok is) ∷ l')
          s.instance_config.project
        ≡ ok ds
      → instance_count (reconcile w s state l).0.2.runners
        ≤ max (count_if (λ i. starts_with i.name (name_prefix w s)) is) s.max_runners
unfolding reconcile process_job_events observe_runners name_prefix
reconcile-instance_count w s state l is ds all listed disks =
    let ((s', state'), l') = process_job_events w s state l in
    rw (listed, disks)
      (omega (
        arith,
        observed-instance_count (name_prefix w s) is
            (owned_by_name (name_prefix w s) (λ d. d.name) ds []) state'.runners,
        reconcile_observed-instance_count w s'
            (record state' {
              runners =
                  observed (owned_by_name (name_prefix w s) (λ i. i.name) is [])
                    (owned_by_name (name_prefix w s) (λ d. d.name) ds []) state'.runners;
            })
            (disks_listed s.instance_config.project (ok ds)
              ∷ instances_listed s.instance_config.project (ok is)
              ∷ l')
            all,
      ))
