-- ===== src/Scaler/Sound/Cycle.antt =====
-- A whole reconciliation keeps the view well formed.
use oxide_gha_runner_scale_s.Prelude.{
  ℕ, Bool-cases, ◌-◌, inl, inr, subst, ℤ, pos, negsuc, take, ltb, ◌==◌,
}
use oxide_gha_runner_scale_s.GoMap.{Map}
use oxide_gha_runner_scale_s.GoTime.{zero_time}
use oxide_gha_runner_scale_s.Api.{Log, Result, ok, err, Result-cases, Instance, Disk, Image}
use oxide_gha_runner_scale_s.Scaler.Runner.{Runner, ReconcileState, active_runner_count}
use oxide_gha_runner_scale_s.Scaler.World.{World, Scaler, RangeVisitsAll}
use oxide_gha_runner_scale_s.Scaler.Handler.{process_job_events}
use oxide_gha_runner_scale_s.Scaler.Observe.{
  observed, observe_runners, list_owned_instances, list_owned_disks,
}
use oxide_gha_runner_scale_s.Scaler.Provision.{provision_runners, run_workers, fetch_image}
use oxide_gha_runner_scale_s.Scaler.Capacity.{
  scale_up, scale_down, provision_requested, requested_runners, candidates, sort_by_age,
}
use oxide_gha_runner_scale_s.Scaler.Reconcile.{
  plan, reclaim_for, drive_teardowns, converge, reconcile_observed, request_reconcile, target_count,
  reconcile_drained, reconcile,
}
use oxide_gha_runner_scale_s.Scaler.Sound.{IsView}
use oxide_gha_runner_scale_s.Scaler.Sound.Loops.{
  Within-IsView, Within-trans, clear_resources-Within, plan-Within, reclaim_for-Within,
  drive_teardowns-Within,
}
use oxide_gha_runner_scale_s.Scaler.Sound.Writes.{
  set_instances-IsView, set_disks-IsView, apply_job_events-IsView, track_workers-IsView,
  mark_selected-IsView,
}

observed-IsView :
    (is : Map Instance) (ds : Map Disk) (m : Map Runner) → IsView m → IsView (observed is ds m)
unfolding observed
observed-IsView is ds m v =
    set_disks-IsView ds _
      (set_instances-IsView is _ (Within-IsView _ _ (clear_resources-Within m) v))

abbrev IsViewIfOk : Result (Map Runner) → Type 0
IsViewIfOk (err e) = Unit
IsViewIfOk (ok m) = IsView m

module _ (w : World) (all : RangeVisitsAll w) where
  provision_requested-IsView :
      (s : Scaler) (m : Map Runner) (n : ℕ) (a : Result Image) (l : Log)
      → IsView m
      → IsView (provision_requested w s m n a l).0.1
  unfolding provision_requested provision_runners
  provision_requested-IsView s m n (err e) l v = v
  provision_requested-IsView s m n (ok image) l v =
      let (xs, l') = run_workers w s image n l in track_workers-IsView w xs m l' v

  scale_up-IsView :
      (s : Scaler) (m : Map Runner) (active target : ℕ) (l : Log)
      → IsView m
      → IsView (scale_up w s m active target l).0.1
  unfolding scale_up
  scale_up-IsView s m active target l v =
      elim (Bool-cases (requested_runners s m active target == 0)) [
        | inl none_needed ↦ rw (none_needed, scale_up) v
        | inr some_needed ↦
            rw (some_needed, scale_up)
              (provision_requested-IsView s m (requested_runners s m active target)
                (fetch_image w s l).0 (fetch_image w s l).1 v)
      ]

  scale_down-IsView :
      (m : Map Runner) (active target : ℕ) (l : Log)
      → IsView m
      → IsView (scale_down w m active target l).0.1
  unfolding scale_down
  scale_down-IsView m active target l v =
      let (found, l') = candidates w (w.range l m) l in
      mark_selected-IsView w (take (active - target) (sort_by_age found)) zero_time m l' v

  converge-IsView :
      (s : Scaler) (target : ℤ) (m : Map Runner) (l : Log)
      → IsView m
      → IsView (converge w s target m l).0.1
  unfolding converge
  converge-IsView s (negsuc n) m l v = v
  converge-IsView s (pos t) m l v =
      let active = active_runner_count m in
      elim (Bool-cases (ltb active t)) [
        | inl low ↦ rw (low, converge) (scale_up-IsView s m active t l v)
        | inr enough ↦ elim (Bool-cases (ltb t active)) [
          | inl high ↦ rw (enough, high, converge) (scale_down-IsView m active t l v)
          | inr met ↦ rw (enough, met, converge) v
        ]
      ]

  reconcile_observed-IsView :
      (s : Scaler) (state : ReconcileState) (l : Log)
      → IsView state.runners
      → IsView (reconcile_observed w s state l).0.2.runners
  unfolding reconcile_observed
  reconcile_observed-IsView s state l v =
      let ((next₁, planned), l₁) = plan w state l in
      let target = target_count planned.desired_runner_count s.min_runners s.max_runners in
      let (kept, l₂) = reclaim_for w target planned.runners l₁ in
      let ((next₂, driven), l₃) = drive_teardowns w s (request_reconcile zero_time next₁) kept l₂ in
      converge-IsView s target driven l₃ (
        Within-IsView _ _
          (Within-trans _ _ _ (plan-Within w all state l) (
            Within-trans _ _ _ (reclaim_for-Within w all target planned.runners l₁)
              (drive_teardowns-Within w all s (request_reconcile zero_time next₁) kept l₂)))
          v)

  observe_runners-IsViewIfOk :
      (s : Scaler) (m : Map Runner) (l : Log) → IsView m → IsViewIfOk (observe_runners w s m l).0
  unfolding observe_runners
  observe_runners-IsViewIfOk s m l v =
      let (a, l') = list_owned_instances w s l in
      elim (Result-cases a) [
        | inl (e, h) ↦ rw (h, observe_runners) tt
        | inr (is, h) ↦ elim (Result-cases (list_owned_disks w s l').0) [
          | inl (e, h') ↦ rw (h, h', observe_runners) tt
          | inr (ds, h') ↦ rw (h, h', observe_runners) (observed-IsView is ds m v)
        ]
      ]

  pub reconcile_drained-IsView :
      (s : Scaler) (state : ReconcileState) (l : Log)
      → IsView state.runners
      → IsView (reconcile_drained w s state l).0.2.runners
  unfolding reconcile_drained
  reconcile_drained-IsView s state l v =
      let (a, l') = observe_runners w s state.runners l in
      elim (Result-cases a) [
        | inl (e, h) ↦ rw h v
        | inr (m, h) ↦ rw h (
            reconcile_observed-IsView s (record state { runners = m }) l'
              (subst IsViewIfOk h (observe_runners-IsViewIfOk s state.runners l v)))
      ]

pub process_job_events-IsView :
    (w : World) (s : Scaler) (state : ReconcileState) (l : Log)
    → IsView state.runners
    → IsView (process_job_events w s state l).0.1.runners
unfolding process_job_events
process_job_events-IsView w s state l v = apply_job_events-IsView w s.job_events state.runners l v

-- A reconciliation keeps the view well formed, whatever the inbox holds and whatever GitHub and Oxide
-- answer, if a loop over a map visits each entry once: no name stands twice, each entry has the name
-- of its runner, and a teardown is cancelable with a deadline in its cancellation window and has no
-- deadline outside of it.
pub reconcile-IsView :
    (w : World) (s : Scaler) (state : ReconcileState) (l : Log)
    → RangeVisitsAll w
    → IsView state.runners
    → IsView (reconcile w s state l).0.2.runners
unfolding reconcile
reconcile-IsView w s state l all v =
    let ((s', state'), l') = process_job_events w s state l in
    reconcile_drained-IsView w all s' state' l' (process_job_events-IsView w s state l v)
