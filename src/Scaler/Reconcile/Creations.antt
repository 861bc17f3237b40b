-- ===== src/Scaler/Reconcile/Creations.antt =====
-- The instances that one cycle requests.
use oxide_gha_runner_scale_s.Prelude.{
  ℕ, String, ◌+◌, ◌-◌, ◌≡◌, ◌≤◌, refl, ◌∙◌, [], ◌∷◌, List, arith, ℤ, pos, negsuc, take, inl, inr,
}
use oxide_gha_runner_scale_s.GoMap.{Map, lookup}
use oxide_gha_runner_scale_s.GoTime.{Time, zero_time}
use oxide_gha_runner_scale_s.Api.{Log, clock_read, Result-cases}
use oxide_gha_runner_scale_s.Api.Effect.{Effect, for_each}
use oxide_gha_runner_scale_s.Scaler.Runner.{
  Runner, ReconcileState, active_runner_count, cancelable, or_new_runner,
}
use oxide_gha_runner_scale_s.Scaler.World.{
  World, Scaler, JobEvent, JobStatus, started, completed, unknown_status,
}
use oxide_gha_runner_scale_s.Scaler.Mark.{
  visit_instance, visit_disk, audit_runner, audit_loop, mark_instances_for_teardown,
  mark_disks_for_teardown, mark_registrations_for_teardown, mark_for_teardown,
}
use oxide_gha_runner_scale_s.Scaler.Teardown.{teardown}
use oxide_gha_runner_scale_s.Scaler.Handler.{apply_job_status, apply_job_events, process_job_events}
use oxide_gha_runner_scale_s.Scaler.Observe.{observe_runners}
use oxide_gha_runner_scale_s.Scaler.Capacity.{
  is_candidate, candidates, mark_selected, scale_down, sort_by_age,
}
use oxide_gha_runner_scale_s.Scaler.Provision.Requests.{creations}
use oxide_gha_runner_scale_s.Scaler.Capacity.Bound.{scale_up_bounded}
use oxide_gha_runner_scale_s.Scaler.Reconcile.{
  audit, plan, reclaim_for, teardown_loop, drive_teardowns, converge, conclude, reconcile_observed,
  request_reconcile, target_count, reconcile,
}

-- A computation that requests no instance.
abbrev Quiet {ℓ} : {A : Type ℓ} → Effect A → Type 0
Quiet m = (l : Log) → creations (m l).1 ≡ creations l

module _ (w : World) where
  visit_instance-Quiet : (r : Runner) → Quiet (visit_instance w r)
  unfolding visit_instance
  visit_instance-Quiet r l = ground arith

  visit_disk-Quiet : (r : Runner) → Quiet (visit_disk w r)
  unfolding visit_disk
  visit_disk-Quiet r l = ground arith

  audit_runner-Quiet : (r : Runner) → Quiet (audit_runner w r)
  unfolding audit_runner
  audit_runner-Quiet r l = ground arith

  teardown-Quiet : (s : Scaler) (r : Runner) → Quiet (teardown w s r)
  unfolding teardown
  teardown-Quiet s r l = ground arith

  for_each-Quiet :
      (body : Runner → Effect Runner)
      → ((r : Runner) → Quiet (body r))
      → (m : Map Runner) → Quiet (for_each body m)
  unfolding for_each
  for_each-Quiet body quiet [] l = refl
  for_each-Quiet body quiet ((k, r) ∷ m) l = for_each-Quiet body quiet m (body r l).1 ∙ quiet r l

  audit_loop-Quiet : (m : Map Runner) → Quiet (audit_loop w m)
  unfolding audit_loop
  audit_loop-Quiet [] l = refl
  audit_loop-Quiet ((k, r) ∷ m) l =
      audit_loop-Quiet m (audit_runner w r l).1 ∙ audit_runner-Quiet r l

  mark_registrations-Quiet : (m : Map Runner) → Quiet (mark_registrations_for_teardown w m)
  unfolding mark_registrations_for_teardown
  mark_registrations-Quiet m l = ground (arith, audit_loop-Quiet (w.range l m) l)

  audit-Quiet : (state : ReconcileState) → Quiet (audit w state)
  unfolding audit
  audit-Quiet state l =
      ground (arith, mark_registrations-Quiet state.runners (clock_read (w.now l) ∷ l))

  plan-Quiet : (state : ReconcileState) → Quiet (plan w state)
  unfolding plan mark_instances_for_teardown mark_disks_for_teardown
  plan-Quiet state l =
      let (m₁, l₁) = mark_instances_for_teardown w state.runners l in
      let (m₂, l₂) = mark_disks_for_teardown w m₁ l₁ in
      audit-Quiet (record state { runners = m₂ }) l₂
      ∙ (for_each-Quiet (visit_disk w) visit_disk-Quiet (w.range l₁ m₁) l₁
          ∙ for_each-Quiet (visit_instance w) visit_instance-Quiet (w.range l state.runners) l)

  reclaim_for-Quiet : (target : ℤ) (m : Map Runner) → Quiet (reclaim_for w target m)
  unfolding reclaim_for
  reclaim_for-Quiet (negsuc n) m l = refl
  reclaim_for-Quiet (pos t) m l = ground arith

  teardown_loop-Quiet :
      (s : Scaler) (next : Time) (m : Map Runner) → Quiet (teardown_loop w s next m)
  unfolding teardown_loop
  teardown_loop-Quiet s next [] l = refl
  teardown_loop-Quiet s next ((k, r) ∷ m) l =
      let ((at, r'), l') = teardown w s r l in
      teardown_loop-Quiet s (request_reconcile next at) m l' ∙ teardown-Quiet s r l

  drive_teardowns-Quiet :
      (s : Scaler) (next : Time) (m : Map Runner) → Quiet (drive_teardowns w s next m)
  unfolding drive_teardowns
  drive_teardowns-Quiet s next m l = teardown_loop-Quiet s next (w.range l m) l

  is_candidate-Quiet : (r : Runner) → Quiet (is_candidate w r)
  unfolding is_candidate
  is_candidate-Quiet r l = ground arith

  candidates-Quiet : (m : Map Runner) → Quiet (candidates w m)
  unfolding candidates
  candidates-Quiet [] l = refl
  candidates-Quiet ((k, r) ∷ m) l =
      candidates-Quiet m (is_candidate w r l).1 ∙ is_candidate-Quiet r l

  mark_for_teardown-Quiet : (r : Runner) → Quiet (mark_for_teardown w cancelable r)
  unfolding mark_for_teardown
  mark_for_teardown-Quiet r l = ground arith

  mark_selected-Quiet :
      (xs : List (String × Runner)) (next : Time) (m : Map Runner)
      → Quiet (mark_selected w xs next m)
  unfolding mark_selected
  mark_selected-Quiet [] next m l = refl
  mark_selected-Quiet ((k, _) ∷ xs) next m l =
      mark_selected-Quiet xs _ _ _ ∙ mark_for_teardown-Quiet (or_new_runner k (lookup k m)) l

  scale_down-Quiet : (m : Map Runner) (active target : ℕ) → Quiet (scale_down w m active target)
  unfolding scale_down
  scale_down-Quiet m active target l =
      let (found, l') = candidates w (w.range l m) l in
      mark_selected-Quiet (take (active - target) (sort_by_age found)) zero_time m l'
      ∙ candidates-Quiet (w.range l m) l

  conclude-Quiet : (s : Scaler) (next : Time) (m : Map Runner) → Quiet (conclude w s next m)
  unfolding conclude
  conclude-Quiet s next m l = ground arith

  converge-creations :
      (s : Scaler) (target : ℤ) (m : Map Runner) (l : Log)
      → creations (converge w s target m l).1 ≤ creations l + s.max_runners
  unfolding converge
  converge-creations s (negsuc n) m l = omega arith
  converge-creations s (pos t) m l = ground (
    arith,
    (scale_up_bounded w s m (active_runner_count m) t l).1,
    scale_down-Quiet m (active_runner_count m) t l,
  )

  reconcile_observed-creations :
      (s : Scaler) (state : ReconcileState) (l : Log)
      → creations (reconcile_observed w s state l).1 ≤ creations l + s.max_runners
  unfolding reconcile_observed
  reconcile_observed-creations s state l =
      let ((next₁, planned), l₁) = plan w state l in
      let target = target_count planned.desired_runner_count s.min_runners s.max_runners in
      let (kept, l₂) = reclaim_for w target planned.runners l₁ in
      let ((next₂, driven), l₃) = drive_teardowns w s (request_reconcile zero_time next₁) kept l₂ in
      let ((at, runners), l₄) = converge w s target driven l₃ in
      omega (
        arith,
        plan-Quiet state l,
        reclaim_for-Quiet target planned.runners l₁,
        drive_teardowns-Quiet s (request_reconcile zero_time next₁) kept l₂,
        converge-creations s target driven l₃,
        conclude-Quiet (record s { active_runner_count = active_runner_count runners })
            (request_reconcile next₂ at) runners l₄,
      )

  apply_job_status-Quiet :
      (k : String) (status : JobStatus) (m : Map Runner) → Quiet (apply_job_status w k status m)
  unfolding apply_job_status
  apply_job_status-Quiet k started m l = refl
  apply_job_status-Quiet k completed m l = ground arith
  apply_job_status-Quiet k (unknown_status _) m l = refl

  apply_job_events-Quiet : (es : List JobEvent) (m : Map Runner) → Quiet (apply_job_events w es m)
  unfolding apply_job_events
  apply_job_events-Quiet [] m l = refl
  apply_job_events-Quiet (e ∷ es) m l =
      let (m', l') = apply_job_status w e.runner_name e.job_status m l in
      apply_job_events-Quiet es m' l' ∙ apply_job_status-Quiet e.runner_name e.job_status m l

  observe_runners-Quiet : (s : Scaler) (m : Map Runner) → Quiet (observe_runners w s m)
  unfolding observe_runners
  observe_runners-Quiet s m l = ground arith

-- One reconciliation requests at most as many instances as the configured maximum, so none at all
-- when the scale set is draining (a maximum of 0), whatever the state, the inbox and the answers.
pub reconcile-creations :
    (w : World) (s : Scaler) (state : ReconcileState) (l : Log)
    → creations (reconcile w s state l).1 ≤ creations l + s.max_runners
unfolding reconcile process_job_events
reconcile-creations w s state l =
    let (m, l₁) = apply_job_events w s.job_events state.runners l in
    let s' = record s { job_events = [] } in
    let (a, l₂) = observe_runners w s' m l₁ in
    elim (Result-cases a) [
      | inl (e, h) ↦ rw h (
          omega (
            arith,
            apply_job_events-Quiet w s.job_events state.runners l,
            observe_runners-Quiet w s' m l₁,
          ))
      | inr (runners, h) ↦ rw h (
          omega (
            arith,
            apply_job_events-Quiet w s.job_events state.runners l,
            observe_runners-Quiet w s' m l₁,
            reconcile_observed-creations w s'
                (record state { desired_runner_count = s.desired_runner_count; runners = runners })
                l₂,
          ))
    ]
