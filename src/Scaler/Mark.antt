-- ===== src/Scaler/Mark.antt =====
-- internal/scaler/teardown.go: which runners are marked for teardown.
pub mod Policy
use oxide_gha_runner_scale_s.Prelude.{
  ℕ, String, Bool, true, false, not, ◌||◌, ◌&&◌, Option, none, some, is_some, is_none,
  if◌then◌else◌, ℤ, eq_ℤ, leb, [], ◌∷◌, List,
}
use oxide_gha_runner_scale_s.GoMap.{Map}
use oxide_gha_runner_scale_s.GoTime.{Time, Duration, zero_time, add, minutes}
use oxide_gha_runner_scale_s.Api.{
  Result, ok, err, Registration, Instance, InstanceState, creating, starting,
}
use oxide_gha_runner_scale_s.Api.Effect.{Effect, pure, ◌>>=◌, for_each}
use oxide_gha_runner_scale_s.Scaler.Runner.{
  Runner, ReconcileState, TeardownState, TeardownPolicy, permanent, cancelable, is_cancelable,
  cancellation_window, removing_registration, is_cancellation_window, begin_removing_registration,
  begin_deprovisioning, instance_halted,
}
use oxide_gha_runner_scale_s.Scaler.World.{
  World, Scaler, time_now, time_since, next_reconcile_after, visit_order, github_get_runner_by_name,
}
use oxide_gha_runner_scale_s.Scaler.Teardown.{scale_down_cancellation_delay, reconcile_retry_delay}

abbrev pub resource_grace_period : Duration
resource_grace_period = minutes 5

abbrev pub provisioning_timeout : Duration
provisioning_timeout = minutes 10

-- An upgrade of an existing teardown.
unfoldable pub upgrade_teardown : TeardownPolicy → TeardownState → TeardownState
unfolding begin_removing_registration
upgrade_teardown policy t =
    let t' = record t { policy = policy } in
    if is_cancellation_window t.phase then begin_removing_registration t' else t'

-- `markForTeardown` on the teardown of the runner.
unfoldable pub marked_teardown :
    World → TeardownPolicy → Option TeardownState → Effect (Option TeardownState)
unfolding upgrade_teardown time_now
marked_teardown w policy (some t) = pure (
    some (
      if is_cancelable t.policy && not (is_cancelable policy)
      then upgrade_teardown policy t
      else t))
marked_teardown w cancelable none = do
  now ← time_now w
  pure (
      some (record {
        policy = cancelable;
        phase = cancellation_window;
        registration_removal_after = add now scale_down_cancellation_delay;
      }))
marked_teardown w permanent none = pure (
    some (record {
      policy = permanent;
      phase = removing_registration;
      registration_removal_after = zero_time;
    }))

unfoldable pub mark_for_teardown : World → TeardownPolicy → Runner → Effect Runner
unfolding marked_teardown
mark_for_teardown w policy r = do
  t ← marked_teardown w policy r.teardown
  pure (record r { teardown = t })

unfoldable pub past_grace_period : World → Option Time → Effect Bool
unfolding time_since
past_grace_period w none = pure true
past_grace_period w (some created) = do
  age ← time_since w created
  pure (leb resource_grace_period age)

abbrev pub is_provisioning : InstanceState → Bool
is_provisioning creating = true
is_provisioning starting = true
is_provisioning _ = false

-- `since`, or the creation time where it is nil.
abbrev pub or_time : Option Time → Option Time → Option Time
or_time none created = created
or_time (some t) created = some t

unfoldable pub timed_out_since : World → Option Time → Effect Bool
unfolding time_since
timed_out_since w none = pure true
timed_out_since w (some since) = do age ← time_since w since; pure (leb provisioning_timeout age)

unfoldable pub provisioning_timed_out : World → Instance → Effect Bool
unfolding timed_out_since
provisioning_timed_out w i =
    if is_provisioning i.run_state
    then timed_out_since w (or_time i.time_run_state_updated i.time_created)
    else pure false

-- The body of the loop of `markInstancesForTeardown`, at a runner with an instance and no teardown.
unfoldable pub mark_instance : World → Instance → Runner → Effect Runner
unfolding mark_for_teardown past_grace_period provisioning_timed_out instance_halted
mark_instance w i r = do
  past ← past_grace_period w i.time_created
  if not past
      then pure r
      else (if instance_halted i.run_state then mark_for_teardown w permanent r else do
        out ← provisioning_timed_out w i
        if out then mark_for_teardown w permanent r else pure r)

unfoldable pub visit_instance : World → Runner → Effect Runner
unfolding mark_instance
visit_instance w r = elim r.instance_of [
  | none ↦ pure r
  | some i ↦ if is_some r.teardown then pure r else mark_instance w i r
]

unfoldable pub mark_instances_for_teardown : World → Map Runner → Effect (Map Runner)
unfolding visit_instance for_each visit_order
mark_instances_for_teardown w runners = do
  visited ← visit_order w runners
  for_each (visit_instance w) visited

unfoldable pub visit_disk : World → Runner → Effect Runner
unfolding mark_for_teardown past_grace_period
visit_disk w r = elim r.disk [
  | none ↦ pure r
  | some d ↦ if is_some r.instance_of || is_some r.teardown then pure r else do
    past ← past_grace_period w d.time_created
    if past then mark_for_teardown w permanent r else pure r
]

unfoldable pub mark_disks_for_teardown : World → Map Runner → Effect (Map Runner)
unfolding visit_disk for_each visit_order
mark_disks_for_teardown w runners = do
  visited ← visit_order w runners
  for_each (visit_disk w) visited

-- `runner.teardown.beginDeprovisioning()`.
unfoldable pub confirm_removed : Option TeardownState → Option TeardownState
unfolding begin_deprovisioning
confirm_removed none = none
confirm_removed (some t) = some (begin_deprovisioning t)

-- What the audit does with the answer of GitHub: whether to retry, and the runner. A registration
-- in another scale set is only logged.
unfoldable pub audit_answer : World → Runner → Result (Option Registration) → Effect (Bool × Runner)
unfolding mark_for_teardown confirm_removed
audit_answer w r (err e) = pure (true, r)
audit_answer w r (ok (some found)) = pure (false, r)
audit_answer w r (ok none) = do
  r' ← mark_for_teardown w permanent r
  pure (false, record r' { teardown = confirm_removed r'.teardown })

-- The body of the loop of `markRegistrationsForTeardown`, after its first guard.
unfoldable pub audit_instance : World → Instance → Runner → Effect (Bool × Runner)
unfolding audit_answer past_grace_period instance_halted github_get_runner_by_name
audit_instance w i r = do
  past ← past_grace_period w i.time_created
  if not past || instance_halted i.run_state
      then pure (false, r)
      else do a ← github_get_runner_by_name w r.name; audit_answer w r a

unfoldable pub audit_runner : World → Runner → Effect (Bool × Runner)
unfolding audit_instance
audit_runner w r = elim r.instance_of [
  | none ↦ pure (false, r)
  | some i ↦ if is_some r.teardown then pure (false, r) else audit_instance w i r
]

unfoldable pub audit_loop : World → Map Runner → Effect (Bool × Map Runner)
unfolding audit_runner
audit_loop w [] = pure (false, [])
audit_loop w ((k, r) ∷ m) = do
  (retry, r') ← audit_runner w r
  (retries, m') ← audit_loop w m
  pure (retry || retries, (k, r') ∷ m')

unfoldable pub mark_registrations_for_teardown : World → Map Runner → Effect (Time × Map Runner)
unfolding audit_loop visit_order next_reconcile_after
mark_registrations_for_teardown w runners = do
  visited ← visit_order w runners
  (retry, runners') ← audit_loop w visited
  if not retry
      then pure (zero_time, runners')
      else do t ← next_reconcile_after w reconcile_retry_delay; pure (t, runners')
