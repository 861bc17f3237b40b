-- ===== src/Scaler/Reconcile.antt =====
-- internal/scaler/reconcile.go: one cycle of gathering, planning and acting.
pub mod Bound
pub mod Creations
pub mod Deadlines
use oxide_gha_runner_scale_s.Prelude.{
  ℕ, String, Bool, true, false, ◌&&◌, ◌+◌, ◌-◌, List, [], ◌∷◌, ℤ, pos, negsuc, ltb, leb, ◌==◌, min,
  if◌then◌else◌, length,
}
use oxide_gha_runner_scale_s.GoMap.{Map}
use oxide_gha_runner_scale_s.GoTime.{Time, Duration, zero_time, is_zero, before, minutes}
use oxide_gha_runner_scale_s.Api.{Err, Result, ok, err}
use oxide_gha_runner_scale_s.Api.Effect.{Effect, pure, ◌>>=◌}
use oxide_gha_runner_scale_s.Scaler.Runner.{
  Runner, ReconcileState, active_runner_count, teardown_count, prune,
}
use oxide_gha_runner_scale_s.Scaler.World.{
  World, Scaler, time_now, time_since, next_reconcile_after, visit_order,
}
use oxide_gha_runner_scale_s.Scaler.Teardown.{reconcile_retry_delay, teardown}
use oxide_gha_runner_scale_s.Scaler.Mark.{
  mark_instances_for_teardown, mark_disks_for_teardown, mark_registrations_for_teardown,
}
use oxide_gha_runner_scale_s.Scaler.Handler.{process_job_events}
use oxide_gha_runner_scale_s.Scaler.Capacity.{scale_up, scale_down, cancel_pending_scale_downs}
use oxide_gha_runner_scale_s.Scaler.Observe.{observe_runners}

abbrev pub github_audit_interval : Duration
github_audit_interval = minutes 10

-- The new `nextReconcile` of a result.
unfoldable pub request_reconcile : Time → Time → Time
request_reconcile next at =
    if is_zero at
    then next
    else (if is_zero next then at else (if before at next then at else next))

-- What `reconcile` returns: the next reconciliation, or `ErrScaleSetDrained`.
pub data Outcome : Type 0 where
  next_at : Time → Outcome
  drained : Outcome

-- `state.desiredRunnerCount + s.minRunners` in 64 bits, and the minimum with the maximum.
unfoldable pub target_count : ℤ → ℕ → ℕ → ℤ
target_count (negsuc n) least most = negsuc 0
target_count (pos d) least most =
    if ltb (d + least) 9223372036854775808
    then pos (min (d + least) most)
    else negsuc (18446744073709551616 - (d + least) - 1)

unfoldable pub audit : World → ReconcileState → Effect (Time × ReconcileState)
unfolding time_since time_now mark_registrations_for_teardown
audit w state = do
  age ← time_since w state.last_github_audit
  if ltb age github_audit_interval then pure (zero_time, state) else do
    (retry, runners) ← mark_registrations_for_teardown w state.runners
    let state' = record state { runners = runners }
    if is_zero retry
        then (do now ← time_now w; pure (retry, record state' { last_github_audit = now }))
        else pure (retry, state')

-- The plan: the deadline that it asks for, and the state.
unfoldable pub plan : World → ReconcileState → Effect (Time × ReconcileState)
unfolding mark_instances_for_teardown mark_disks_for_teardown audit
plan w state = do
  marked ← mark_instances_for_teardown w state.runners
  marked' ← mark_disks_for_teardown w marked
  audit w (record state { runners = marked' })

unfoldable pub reclaim_for : World → ℤ → Map Runner → Effect (Map Runner)
unfolding active_runner_count cancel_pending_scale_downs
reclaim_for w (negsuc n) runners = pure runners
reclaim_for w (pos t) runners =
    let active = active_runner_count runners in
    if ltb active t then cancel_pending_scale_downs w runners (t - active) else pure runners

-- The loop that drives the teardowns; a runner without one is passed over.
unfoldable pub teardown_loop : World → Scaler → Time → Map Runner → Effect (Time × Map Runner)
unfolding teardown request_reconcile
teardown_loop w s next [] = pure (next, [])
teardown_loop w s next ((k, r) ∷ m) = do
  (at, r') ← teardown w s r
  (next', m') ← teardown_loop w s (request_reconcile next at) m
  pure (next', (k, r') ∷ m')

unfoldable pub drive_teardowns : World → Scaler → Time → Map Runner → Effect (Time × Map Runner)
unfolding teardown_loop visit_order prune
drive_teardowns w s next runners = do
  visited ← visit_order w runners
  (next', runners') ← teardown_loop w s next visited
  pure (next', prune runners')

-- `switch` on the number of active runners and the target.
unfoldable pub converge : World → Scaler → ℤ → Map Runner → Effect (Time × Map Runner)
unfolding active_runner_count scale_up scale_down
converge w s (negsuc n) runners = pure (zero_time, runners)
converge w s (pos t) runners =
    let active = active_runner_count runners in
    if ltb active t
    then scale_up w s runners active t
    else (if ltb t active then scale_down w runners active t else pure (zero_time, runners))

unfoldable pub is_drained : Scaler → Map Runner → Bool
is_drained s runners = s.min_runners == 0 && s.max_runners == 0 && length runners == 0

-- The end of a cycle.
unfoldable pub conclude : World → Scaler → Time → Map Runner → Effect Outcome
unfolding is_drained teardown_count next_reconcile_after
conclude w s next runners =
    if is_drained s runners
    then pure drained
    else (if ltb 0 (teardown_count runners) && is_zero next
        then (do t ← next_reconcile_after w reconcile_retry_delay; pure (next_at t))
        else pure (next_at next))

-- What follows a successful observation.
unfoldable pub reconcile_observed :
    World → Scaler → ReconcileState → Effect (Outcome × Scaler × ReconcileState)
unfolding plan target_count reclaim_for drive_teardowns converge conclude request_reconcile
    active_runner_count
reconcile_observed w s state = do
  (next₁, planned) ← plan w state
  let target = target_count planned.desired_runner_count s.min_runners s.max_runners
  kept ← reclaim_for w target planned.runners
  (next₂, driven) ← drive_teardowns w s (request_reconcile zero_time next₁) kept
  (at, runners) ← converge w s target driven
  let s' = record s { active_runner_count = active_runner_count runners }
  outcome ← conclude w s' (request_reconcile next₂ at) runners
  pure (outcome, s', record planned { runners = runners })

-- What follows the work on the inbox.
unfoldable pub reconcile_drained :
    World → Scaler → ReconcileState → Effect (Outcome × Scaler × ReconcileState)
unfolding observe_runners reconcile_observed next_reconcile_after
reconcile_drained w s state = do
  a ← observe_runners w s state.runners
  elim a [
    | err e ↦ do t ← next_reconcile_after w reconcile_retry_delay; pure (next_at t, s, state)
    | ok runners ↦ reconcile_observed w s (record state { runners = runners })
  ]

unfoldable pub reconcile :
    World → Scaler → ReconcileState → Effect (Outcome × Scaler × ReconcileState)
unfolding process_job_events reconcile_drained
reconcile w s state = do (s', state') ← process_job_events w s state; reconcile_drained w s' state'
