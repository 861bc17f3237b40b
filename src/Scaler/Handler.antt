-- ===== src/Scaler/Handler.antt =====
-- internal/scaler/handler.go: the callbacks of the listener, and what a reconciliation does with
-- the events that they leave.
pub mod Events
use oxide_gha_runner_scale_s.Prelude.{
  ℕ, String, Bool, true, false, Option, none, some, List, [], ◌∷◌, ◌++◌, ℤ, str_eq, if◌then◌else◌,
}
use oxide_gha_runner_scale_s.GoMap.{Map, lookup, insert}
use oxide_gha_runner_scale_s.Api.Effect.{Effect, pure, ◌>>=◌}
use oxide_gha_runner_scale_s.Scaler.Runner.{
  Runner, ReconcileState, permanent, can_cancel_for_job, or_new_runner, with_runner,
}
use oxide_gha_runner_scale_s.Scaler.World.{
  World, Scaler, JobEvent, JobStatus, started, completed, unknown_status,
}
use oxide_gha_runner_scale_s.Scaler.Mark.{mark_for_teardown}

-- `wake`: a send that does nothing if the channel is full.
unfoldable pub wake : Scaler → Scaler
wake s = record s { wake = true }

-- The new state, and the count that is returned to the listener.
unfoldable pub handle_desired_runner_count : Scaler → ℤ → Scaler × ℕ
unfolding wake
handle_desired_runner_count s count =
    (wake (record s { desired_runner_count = count }), s.active_runner_count)

unfoldable pub enqueue_job_event : Scaler → JobEvent → Scaler
unfolding wake
enqueue_job_event s e = wake (record s { job_events = s.job_events ++ e ∷ [] })

unfoldable pub handle_job_started : Scaler → String → Scaler
unfolding enqueue_job_event
handle_job_started s name =
    if str_eq name ""
    then s
    else enqueue_job_event s (record { runner_name = name; job_status = started })

unfoldable pub handle_job_completed : Scaler → String → Scaler
unfolding enqueue_job_event
handle_job_completed s name =
    if str_eq name ""
    then s
    else enqueue_job_event s (record { runner_name = name; job_status = completed })

-- A started job: the runner is busy, and a teardown that can still be canceled is.
unfoldable pub job_started : Runner → Runner
unfolding can_cancel_for_job
job_started r = record r {
  busy = true;
  teardown = if can_cancel_for_job r.teardown then none else r.teardown;
}

-- A change of one runner that makes calls.
unfoldable pub change_runner : String → (Runner → Effect Runner) → Map Runner → Effect (Map Runner)
unfolding lookup insert
change_runner name change runners = do
  r ← change (or_new_runner name (lookup name runners))
  pure (insert name r runners)

unfoldable pub apply_job_status : World → String → JobStatus → Map Runner → Effect (Map Runner)
unfolding job_started change_runner with_runner mark_for_teardown
apply_job_status w name started runners = pure (with_runner name job_started runners)
apply_job_status w name completed runners =
    change_runner name (mark_for_teardown w permanent) runners
apply_job_status w name (unknown_status _) runners = pure runners

unfoldable pub apply_job_events : World → List JobEvent → Map Runner → Effect (Map Runner)
unfolding apply_job_status
apply_job_events w [] runners = pure runners
apply_job_events w (e ∷ es) runners = do
  runners' ← apply_job_status w e.runner_name e.job_status runners
  apply_job_events w es runners'

-- The demand and the events are taken over under the lock, and the inbox is left empty.
unfoldable pub process_job_events :
    World → Scaler → ReconcileState → Effect (Scaler × ReconcileState)
unfolding apply_job_events
process_job_events w s state = do
  runners' ← apply_job_events w s.job_events state.runners
  pure (
    record s { job_events = [] },
    record state { desired_runner_count = s.desired_runner_count; runners = runners' },
  )
