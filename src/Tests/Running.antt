-- ===== src/Tests/Running.antt =====
-- The loop, its callbacks and the configuration, at concrete inputs.
use oxide_gha_runner_scale_s.Prelude.{true, ◌≡◌, ◌≢◌, ◌<◌, ◌↔◌, ◌⊎◌, none, [], pos, negsuc, refl}
use oxide_gha_runner_scale_s.Prelude.{ℕ, false, min, arith, ◌≤◌, ◌+◌, ◌*◌}
use oxide_gha_runner_scale_s.Scaler.Config.{Config, bytes_per_gib}
use oxide_gha_runner_scale_s.Scaler.Create.{new_scaler, constructed, scaler_of}
use oxide_gha_runner_scale_s.Scaler.Create.Made.{
  new_scaler_iff, new_scaler-target_count, new_scaler-create_params,
}
use oxide_gha_runner_scale_s.Scaler.Provision.{create_params}
use oxide_gha_runner_scale_s.Scaler.Reconcile.{target_count}
use oxide_gha_runner_scale_s.Scaler.Config.Validate.{validate}
use oxide_gha_runner_scale_s.Scaler.Config.Accepts.{IsValid, validate_iff}
use oxide_gha_runner_scale_s.Scaler.World.{Scaler, JobEvent, started}
use oxide_gha_runner_scale_s.Scaler.Run.{
  System, Step, Reach, here, next, taking_over, initial_system, take_over, work, record_event,
}
use oxide_gha_runner_scale_s.Scaler.Run.Wake.{IsHeard, selecting_awake}
use oxide_gha_runner_scale_s.Scaler.Run.Stop.{stopped_drained}
use oxide_gha_runner_scale_s.Tests.Fixtures.{granting, image, scaler, draining}

-- A scale set that is draining and has no demand.
abbrev quiet : Scaler
quiet = record draining { job_events = [] }

abbrev job_a : JobEvent
job_a = record { runner_name = "a"; job_status = started }

-- One reconciliation, during which a job starts.
abbrev pub waiting_system : System
waiting_system =
    let y = take_over granting (record (initial_system scaler []) { phase = taking_over }) in
    work granting (record y { scaler = record_event job_a y.scaler; unsent = 1 })

pub waiting_system-Reach : Reach granting (initial_system scaler []) waiting_system
unfolding initial_system take_over work record_event
waiting_system-Reach =
    next
      (next (next (next here (Step.begin refl)) (Step.takes_over refl))
        (Step.job_event job_a (λ h. cc)))
      (Step.works refl)

selecting_awake_example :
    (waiting_system.scaler.wake ≡ true) ⊎ ((0 < waiting_system.unsent) ⊎ IsHeard waiting_system)
unfolding initial_system take_over work record_event
selecting_awake_example = selecting_awake granting scaler [] _ waiting_system-Reach refl

-- A draining scale set without runners is done after the first reconciliation.
abbrev done_system : System
done_system =
    work granting (take_over granting (record (initial_system quiet []) { phase = taking_over }))

done_system-Reach : Reach granting (initial_system quiet []) done_system
unfolding initial_system take_over work
done_system-Reach =
    next (next (next here (Step.begin refl)) (Step.takes_over refl)) (Step.works refl)

stopped_drained_example :
    (quiet.min_runners ≡ 0) × (quiet.max_runners ≡ 0) × (done_system.state.runners ≡ [])
unfolding take_over work initial_system
stopped_drained_example = stopped_drained granting quiet [] done_system-Reach refl

abbrev config : Config
config = record {
  scale_set = scaler.scale_set;
  instance_config = scaler.instance_config;
  min_runners = pos 1;
  max_runners = pos 3;
}

validate_iff_example : (validate config ≡ none) ↔ IsValid config
validate_iff_example = validate_iff config

validate_accepts : validate config ≡ none
unfolding validate
validate_accepts = refl

validate_refuses : validate (record config { max_runners = negsuc 0 }) ≢ none
unfolding validate
validate_refuses = λ h. cc

made : new_scaler config ≡ constructed (scaler_of config)
unfolding new_scaler validate
made = refl

new_scaler-target_count_example :
    (target : ℕ) × (target_count (pos 9) 1 3 ≡ pos target)
    × (target ≡ min (9 + 1) 3)
    × (1 ≤ target)
    × (target ≤ 3)
unfolding scaler_of
new_scaler-target_count_example =
    new_scaler-target_count config (scaler_of config) 9 made (omega arith)

new_scaler-create_params_example :
    let p = create_params granting (scaler_of config) "a" image "jit" in
    (p.memory ≡ 16 * bytes_per_gib) × (p.ncpus ≡ 4) × (bytes_per_gib ≤ p.memory) × (1 ≤ p.ncpus)
new_scaler-create_params_example =
    new_scaler-create_params granting config (scaler_of config) "a" image "jit" made

new_scaler_iff_example : (new_scaler config ≡ constructed (scaler_of config)) ↔ (
    IsValid config
    × ((scaler_of config).scale_set ≡ config.scale_set)
    × ((scaler_of config).instance_config ≡ config.instance_config)
    × (pos (scaler_of config).min_runners ≡ config.min_runners)
    × (pos (scaler_of config).max_runners ≡ config.max_runners)
    × ((scaler_of config).desired_runner_count ≡ negsuc 0)
    × ((scaler_of config).job_events ≡ [])
    × ((scaler_of config).active_runner_count ≡ 0)
    × ((scaler_of config).wake ≡ false))
new_scaler_iff_example = new_scaler_iff config (scaler_of config)
