-- ===== src/Scaler/Teardown.antt =====
-- internal/scaler/teardown.go: how one runner's teardown is driven forward. A function stands for
-- the code of `teardown` from one guard to the next, and calls the function for what follows.
pub mod Order
pub mod Progress
use oxide_gha_runner_scale_s.Prelude.{
  ℕ, String, Bool, true, false, not, ◌||◌, ◌&&◌, Option, none, some, if◌then◌else◌, ℤ, eq_ℤ,
}
use oxide_gha_runner_scale_s.GoTime.{Time, Duration, zero_time, before, seconds, minutes}
use oxide_gha_runner_scale_s.Api.{
  Err, Result, ok, err, is_object_not_found, is_job_still_running, wrong_scale_set, Registration,
  Instance, Disk, InstanceState, DiskState, stopping, stopped, failed, destroyed, detached, faulted,
}
use oxide_gha_runner_scale_s.Api.Effect.{Effect, pure, ◌>>=◌}
use oxide_gha_runner_scale_s.Scaler.Runner.{
  Runner, TeardownState, TeardownPolicy, is_cancelable, is_cancellation_window,
  is_removing_registration, begin_removing_registration, begin_deprovisioning,
}
use oxide_gha_runner_scale_s.Scaler.World.{
  World, Scaler, time_now, next_reconcile_after, github_get_runner_by_name, github_remove_runner,
  oxide_instance_stop, oxide_instance_delete, oxide_disk_delete,
}

abbrev pub scale_down_cancellation_delay : Duration
scale_down_cancellation_delay = seconds 5

abbrev pub teardown_poll_delay : Duration
teardown_poll_delay = seconds 5

abbrev pub reconcile_retry_delay : Duration
reconcile_retry_delay = seconds 15

-- `if errors.Is(err, oxide.ErrObjectNotFound) { return nil }`.
unfoldable pub ignore_not_found : Result (Unit {0}) → Result (Unit {0})
unfolding is_object_not_found
ignore_not_found (ok u) = ok u
ignore_not_found (err e) = if is_object_not_found e then ok tt else err e

module _ (w : World) (s : Scaler) where
  unfoldable pub remove_found : Option Registration → Effect (Result (Unit {0}))
  unfolding github_remove_runner
  remove_found none = pure (ok tt)
  remove_found (some r) =
      if eq_ℤ r.scale_set_id s.scale_set.id
      then github_remove_runner w r.id
      else pure (err (wrong_scale_set r.scale_set_id s.scale_set.id))

  unfoldable pub remove_answered : Result (Option Registration) → Effect (Result (Unit {0}))
  unfolding remove_found
  remove_answered (err e) = pure (err e)
  remove_answered (ok found) = remove_found found

  unfoldable pub remove_runner : String → Effect (Result (Unit {0}))
  unfolding github_get_runner_by_name remove_answered
  remove_runner name = do a ← github_get_runner_by_name w name; remove_answered a

  unfoldable pub stop_instance : String → Effect (Result (Unit {0}))
  unfolding oxide_instance_stop ignore_not_found
  stop_instance name = do
    a ← oxide_instance_stop w s.instance_config.project name
    pure (ignore_not_found a)

  unfoldable pub delete_instance : String → Effect (Result (Unit {0}))
  unfolding oxide_instance_delete ignore_not_found
  delete_instance name = do
    a ← oxide_instance_delete w s.instance_config.project name
    pure (ignore_not_found a)

  unfoldable pub delete_disk : String → Effect (Result (Unit {0}))
  unfolding oxide_disk_delete ignore_not_found
  delete_disk name = do
    a ← oxide_disk_delete w s.instance_config.project name
    pure (ignore_not_found a)

  -- `return nextReconcileAfter(delay)`, with the runner as it is then.
  unfoldable pub again_after : Duration → Runner → Effect (Time × Runner)
  unfolding next_reconcile_after
  again_after delay r = do t ← next_reconcile_after w delay; pure (t, r)

  unfoldable pub teardown_finish : Runner → Effect (Time × Runner)
  teardown_finish r = pure (zero_time, record r { teardown = none })

  -- `diskDeletable`.
  unfoldable pub disk_deletable : Bool → DiskState → Bool
  disk_deletable deleted detached = true
  disk_deletable deleted faulted = true
  disk_deletable deleted _ = deleted

  unfoldable pub teardown_disk : Bool → Runner → Effect (Time × Runner)
  unfolding again_after teardown_finish disk_deletable delete_disk
  teardown_disk instance_deleted r = elim r.disk [
    | none ↦ teardown_finish r
    | some d ↦
        if not (disk_deletable instance_deleted d.state)
        then again_after teardown_poll_delay r
        else do
          a ← delete_disk r.name
          elim a [
            | err e ↦ again_after reconcile_retry_delay r
            | ok u ↦ teardown_finish (record r { disk = none })
          ]
  ]

  unfoldable pub teardown_halted : Runner → Effect (Time × Runner)
  unfolding again_after teardown_disk delete_instance
  teardown_halted r = do
    a ← delete_instance r.name
    elim a [
      | err e ↦ again_after reconcile_retry_delay r
      | ok u ↦ teardown_disk true (record r { instance_of = none })
    ]

  unfoldable pub teardown_up : Runner → Effect (Time × Runner)
  unfolding again_after stop_instance
  teardown_up r = do
    a ← stop_instance r.name
    elim a [
      | err e ↦ again_after reconcile_retry_delay r
      | ok u ↦ again_after teardown_poll_delay r
    ]

  -- `switch instance.RunState`.
  unfoldable pub teardown_in_state : InstanceState → Runner → Effect (Time × Runner)
  unfolding again_after teardown_disk teardown_halted teardown_up
  teardown_in_state stopped r = teardown_halted r
  teardown_in_state failed r = teardown_halted r
  teardown_in_state destroyed r = teardown_disk false (record r { instance_of = none })
  teardown_in_state stopping r = again_after teardown_poll_delay r
  teardown_in_state _ r = teardown_up r

  unfoldable pub teardown_resources : Runner → Effect (Time × Runner)
  unfolding teardown_disk teardown_in_state
  teardown_resources r = elim r.instance_of [
    | none ↦ teardown_disk false r
    | some i ↦ teardown_in_state i.run_state r
  ]

  -- What a failed registration removal does.
  unfoldable pub removal_failed : TeardownState → Runner → Err → Effect (Time × Runner)
  unfolding again_after is_job_still_running
  removal_failed t r e =
      if is_job_still_running e
      then if is_cancelable t.policy
        then pure (zero_time, record r { busy = true; teardown = none })
        else again_after reconcile_retry_delay (record r { busy = true })
      else again_after reconcile_retry_delay r

  -- What follows the removal of the registration.
  unfoldable pub after_removal : TeardownState → Runner → Result (Unit {0}) → Effect (Time × Runner)
  unfolding teardown_resources removal_failed begin_deprovisioning
  after_removal t r (err e) = removal_failed t r e
  after_removal t r (ok u) =
      teardown_resources (record r { teardown = some (begin_deprovisioning t) })

  unfoldable pub teardown_registration : TeardownState → Runner → Effect (Time × Runner)
  unfolding teardown_resources remove_runner after_removal
  teardown_registration t r =
      if not (is_removing_registration t.phase)
      then teardown_resources r
      else do a ← remove_runner r.name; after_removal t r a

  unfoldable pub teardown_window : TeardownState → Runner → Effect (Time × Runner)
  unfolding teardown_registration begin_removing_registration time_now
  teardown_window t r =
      if not (is_cancellation_window t.phase) then teardown_registration t r else do
        now ← time_now w
        if before now t.registration_removal_after
            then pure (t.registration_removal_after, r)
            else teardown_registration (begin_removing_registration t)
                (record r { teardown = some (begin_removing_registration t) })

  -- The deadline at which the teardown goes on, and the runner as it is left.
  unfoldable pub teardown : Runner → Effect (Time × Runner)
  unfolding teardown_window
  teardown r = elim r.teardown [ none ↦ pure (zero_time, r) | some t ↦ teardown_window t r ]
