-- ===== src/Controller/Start.antt =====
-- controller.go, `newScaler` and the whole of `Run`; main.go.
use oxide_gha_runner_scale_s.Prelude.{
  ℕ, String, Bool, true, false, Option, none, some, List, [], ◌∷◌, map, ◌-◌, ℤ, pos, negsuc, ltb,
  if◌then◌else◌,
}
use oxide_gha_runner_scale_s.AppConfig
use oxide_gha_runner_scale_s.AppConfig.{Outside, runner_labels}
use mathlib.Core.Option
use oxide_gha_runner_scale_s.AppConfig.Clients.{GithubRequest, github_request}
use oxide_gha_runner_scale_s.AppConfig.Validate.{
  Checked, accepted, refused, validate_auth, load_file,
}
use oxide_gha_runner_scale_s.ScaleSet.{
  GithubClient, ScaleSetSettings, RunnerScaleSet, Ensured, ensured, not_ensured, Change,
  ensure_scale_set,
}
use oxide_gha_runner_scale_s.Scaler.Config
use oxide_gha_runner_scale_s.Scaler.Create.{Construction, constructed, new_scaler}
use oxide_gha_runner_scale_s.Scaler.Create
use oxide_gha_runner_scale_s.Controller.{
  RunError, ControllerError, CleanupCall, ensuring_scale_set, creating_scaler, creating_session,
  creating_listener, cleanup, finish_run,
}

-- `int(n)` of an unsigned 64-bit n.
abbrev pub to_int : ℕ → ℤ
to_int n = if ltb n 9223372036854775808 then pos n else negsuc (18446744073709551616 - n - 1)

unfoldable pub scaler_config : AppConfig.Config → ℤ → Config.Config
scaler_config c id = record {
  scale_set = record { namespace = c.github.config_url; id = id };
  instance_config = record {
    project = c.scale_set.instance_of.project;
    image = c.scale_set.instance_of.image;
    boot_disk_gib = c.scale_set.instance_of.boot_disk_gib;
    cpus = c.scale_set.instance_of.cpus;
    memory_gib = c.scale_set.instance_of.memory_gib;
    vpc = c.scale_set.instance_of.vpc;
    subnet = c.scale_set.instance_of.subnet;
  };
  min_runners = to_int c.scale_set.min_runners;
  max_runners = to_int c.scale_set.max_runners;
}

-- What `ensureScaleSet` reads of the configuration.
unfoldable pub scale_set_settings : AppConfig.Config → ScaleSetSettings
unfolding runner_labels
scale_set_settings c = record {
  name = c.scale_set.name;
  runner_group = c.scale_set.runner_group;
  labels = map (λ text. record { name = text }) (runner_labels c.scale_set);
}

-- The GitHub library and the creation of the clients, the session and the listener, how the peers end, and what the clean-up answers; an
-- error is a text.
pub record Surroundings : Type 0 where
  pub github : GithubClient
  pub create_github_client : GithubRequest → Option String
  pub create_oxide_client : String → String → Option String
  pub create_session : ℤ → Option String
  pub create_listener : ℤ → ℤ → Option String
  pub run_peers : RunError × RunError
  pub close_session : Option String
  pub delete_scale_set : ℤ → Option String

-- The errors that `Run` returns, what it changes, and the clean-up.
pub record Report : Type 0 where
  pub errors : List ControllerError
  pub changes : List Change
  pub calls : List CleanupCall

module _ (w : Surroundings) (c : AppConfig.Config) (changes : List Change)
    (x : RunnerScaleSet) where
  -- What follows the creation of the listener: the peers run, or the deferred function alone does.
  unfoldable pub after_listener : Option String → Report
  unfolding cleanup finish_run
  after_listener (some text) =
      let (errors, calls) = cleanup w.close_session none false (creating_listener text ∷ []) in
      record { errors = errors; changes = changes; calls = calls }
  after_listener none =
      let (errors, calls) =
        finish_run w.run_peers.0 w.run_peers.1 w.close_session (w.delete_scale_set x.id) in
      record { errors = errors; changes = changes; calls = calls }

  -- What follows the creation of the session.
  unfoldable pub after_session : Option String → Report
  unfolding after_listener
  after_session (some text) = record {
    errors = creating_session text ∷ [];
    changes = changes;
    calls = [];
  }
  after_session none = after_listener (w.create_listener x.id (to_int c.scale_set.max_runners))

  -- What follows the creation of the scaler.
  unfoldable pub after_scaler : Construction → Report
  unfolding after_session
  after_scaler (Create.refused e) = record {
    errors = creating_scaler e ∷ [];
    changes = changes;
    calls = [];
  }
  after_scaler (constructed s) = after_session (w.create_session x.id)

  -- `Run` from the scale set on.
  unfoldable pub run_scale_set : Report
  unfolding scaler_config new_scaler after_scaler
  run_scale_set = after_scaler (new_scaler (scaler_config c x.id))

unfoldable pub after_ensure : Surroundings → AppConfig.Config → List Change → Ensured → Report
unfolding run_scale_set
after_ensure w c changes (not_ensured e) = record {
  errors = ensuring_scale_set e ∷ [];
  changes = changes;
  calls = [];
}
after_ensure w c changes (ensured x) = run_scale_set w c changes x

-- `Run` of the controller.
unfoldable pub run : Surroundings → AppConfig.Config → Report
unfolding scale_set_settings ensure_scale_set after_ensure
run w c =
    let (answer, changes) = ensure_scale_set w.github (scale_set_settings c) in
    after_ensure w c changes answer

-- Why `newController` fails.
pub data ClientError : Type 0 where
  auth_invalid : AppConfig.Validate.Problem → ClientError
  nil_dereference : ClientError
  github_error oxide_error : String → ClientError

unfoldable pub scale_set_client : Outside → Surroundings → AppConfig.Config → Option ClientError
unfolding validate_auth github_request
scale_set_client o w c = elim (validate_auth o c.github.auth) [
  | refused e ↦ some (auth_invalid e)
  | accepted a ↦ elim (github_request c.github.config_url a) [
    | none ↦ some nil_dereference
    | some q ↦ Option.map github_error (w.create_github_client q)
  ]
]

unfoldable pub oxide_client : Surroundings → AppConfig.Config → Option ClientError
oxide_client w c = Option.map oxide_error (w.create_oxide_client c.oxide.host c.oxide.token)

unfoldable pub new_controller : Outside → Surroundings → AppConfig.Config → Option ClientError
unfolding scale_set_client oxide_client
new_controller o w c = elim (scale_set_client o w c) [ some e ↦ some e | none ↦ oxide_client w c ]

abbrev pub exit_code_of : List ControllerError → ℕ
exit_code_of [] = 0
exit_code_of (e ∷ es) = 1

unfoldable pub after_clients : Surroundings → AppConfig.Config → Option ClientError → ℕ
unfolding run
after_clients w c (some e) = 1
after_clients w c none = exit_code_of (run w c).errors

unfoldable pub after_load : Outside → Surroundings → Checked AppConfig.Config → ℕ
unfolding new_controller after_clients
after_load o w (refused e) = 1
after_load o w (accepted c) = after_clients w c (new_controller o w c)

-- `run` of main.go: the exit code.
unfoldable pub main_run : Outside → Surroundings → Bool → String → ℕ
unfolding load_file after_load
main_run o w true path = 0
main_run o w false path = after_load o w (load_file o path)
