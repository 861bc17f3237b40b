-- ===== src/Scaler/Runner.antt =====
-- internal/scaler/runner.go, and the teardown state of internal/scaler/teardown.go.
use oxide_gha_runner_scale_s.Prelude.{
  ℕ, String, Bool, true, false, not, ◌&&◌, Option, none, some, is_some, is_none, [], ◌∷◌, ℤ, negsuc,
  if◌then◌else◌,
}
use oxide_gha_runner_scale_s.GoMap.{Map, update, count_values}
use oxide_gha_runner_scale_s.GoTime.{Time, zero_time, before}
use oxide_gha_runner_scale_s.Api.{Instance, Disk, InstanceState, stopped, failed, destroyed}

pub data TeardownPolicy : Type 0 where
  permanent cancelable : TeardownPolicy

pub data TeardownPhase : Type 0 where
  cancellation_window removing_registration deprovisioning : TeardownPhase

pub record TeardownState : Type 0 where
  pub policy : TeardownPolicy
  pub phase : TeardownPhase
  pub registration_removal_after : Time

abbrev pub is_cancelable : TeardownPolicy → Bool
is_cancelable permanent = false
is_cancelable cancelable = true

abbrev pub is_cancellation_window : TeardownPhase → Bool
is_cancellation_window cancellation_window = true
is_cancellation_window _ = false

abbrev pub is_removing_registration : TeardownPhase → Bool
is_removing_registration removing_registration = true
is_removing_registration _ = false

abbrev pub is_deprovisioning : TeardownPhase → Bool
is_deprovisioning deprovisioning = true
is_deprovisioning _ = false

unfoldable pub can_cancel_for_capacity : Option TeardownState → Time → Bool
can_cancel_for_capacity none now = false
can_cancel_for_capacity (some t) now =
    is_cancelable t.policy
    && is_cancellation_window t.phase
    && before now t.registration_removal_after

unfoldable pub can_cancel_for_job : Option TeardownState → Bool
can_cancel_for_job none = false
can_cancel_for_job (some t) = is_cancelable t.policy && not (is_deprovisioning t.phase)

unfoldable pub begin_removing_registration : TeardownState → TeardownState
begin_removing_registration t = record t {
  phase = removing_registration;
  registration_removal_after = zero_time;
}

unfoldable pub begin_deprovisioning : TeardownState → TeardownState
begin_deprovisioning t = record t { phase = deprovisioning; registration_removal_after = zero_time }

pub record Runner : Type 0 where
  pub name : String
  pub instance_of : Option Instance
  pub disk : Option Disk
  pub busy : Bool
  pub teardown : Option TeardownState

unfoldable pub instance_halted : InstanceState → Bool
instance_halted stopped = true
instance_halted failed = true
instance_halted destroyed = true
instance_halted _ = false

-- `r.instance != nil && !instanceHalted(r.instance.RunState)`.
abbrev pub is_live : Option Instance → Bool
is_live none = false
is_live (some i) = not (instance_halted i.run_state)

unfoldable pub active : Runner → Bool
unfolding instance_halted
active r = is_live r.instance_of && is_none r.teardown

unfoldable pub gone : Runner → Bool
gone r = is_none r.instance_of && is_none r.disk && is_none r.teardown

pub record ReconcileState : Type 0 where
  pub desired_runner_count : ℤ
  pub runners : Map Runner
  pub last_github_audit : Time

unfoldable pub new_reconcile_state : ReconcileState
new_reconcile_state = record {
  desired_runner_count = negsuc 0;
  runners = [];
  last_github_audit = zero_time;
}

-- `&runner{name: name}`.
abbrev pub new_runner : String → Runner
new_runner name = record {
  name = name;
  instance_of = none;
  disk = none;
  busy = false;
  teardown = none;
}

abbrev pub or_new_runner : String → Option Runner → Runner
or_new_runner name none = new_runner name
or_new_runner name (some r) = r

-- `state.runner(name)` and then a change of the runner that it returns.
unfoldable pub with_runner : String → (Runner → Runner) → Map Runner → Map Runner
with_runner name change runners = update name (λ o. change (or_new_runner name o)) runners

unfoldable pub active_runner_count : Map Runner → ℕ
unfolding active
active_runner_count runners = count_values active runners

abbrev pub has_instance : Runner → Bool
has_instance r = is_some r.instance_of

unfoldable pub instance_count : Map Runner → ℕ
instance_count runners = count_values has_instance runners

abbrev pub has_teardown : Runner → Bool
has_teardown r = is_some r.teardown

unfoldable pub teardown_count : Map Runner → ℕ
teardown_count runners = count_values has_teardown runners

unfoldable pub prune : Map Runner → Map Runner
unfolding gone
prune [] = []
prune ((k, r) ∷ m) = if gone r then prune m else (k, r) ∷ prune m
