-- ===== src/Tests/Process.antt =====
-- The process, at concrete inputs.
use oxide_gha_runner_scale_s.Prelude.{
  true, ◌⊎◌, false, none, some, [], ◌∷◌, ◌≡◌, ◌≢◌, ◌↔◌, refl, pos, arith,
}
use oxide_gha_runner_scale_s.GoStrings.{to_lower, split}
use oxide_gha_runner_scale_s.AppConfig.{Config}
use oxide_gha_runner_scale_s.AppConfig.Scope.{
  canonical_path, canonical_host, canonical_hostname, split_host_port,
}
use oxide_gha_runner_scale_s.Scaler.World.{Scaler}
use oxide_gha_runner_scale_s.Scaler.Create.{constructed, new_scaler}
use oxide_gha_runner_scale_s.Controller.{drained, canceled}
use oxide_gha_runner_scale_s.Controller.Start.{
  scaler_config, Surroundings, new_controller, scale_set_settings, run, main_run,
}
use oxide_gha_runner_scale_s.Controller.Handover.{
  client_answer, validate-new_scaler, validate-new_controller,
}
use oxide_gha_runner_scale_s.Controller.Exit.{ServedAt, run_lem}
use oxide_gha_runner_scale_s.Controller.ExitCode.{HasClients, IsServed, main_run-zero}
use oxide_gha_runner_scale_s.AppConfig.Loaded.{IsLoaded}
use oxide_gha_runner_scale_s.Version.{BuildInfo, GoBuildInfo, get_build_info}
use oxide_gha_runner_scale_s.Version.Reported.{get_build_info_lem}
use oxide_gha_runner_scale_s.ScaleSet.{RunnerScaleSet, ensured, ensure_scale_set}
use oxide_gha_runner_scale_s.Tests.Adoption.{github}
use oxide_gha_runner_scale_s.AppConfig.Validate.{accepted, validate}
use oxide_gha_runner_scale_s.AppConfig.Clients.{GithubRequest}
use oxide_gha_runner_scale_s.AppConfig.Clients.Credential.{HasCredential}
use oxide_gha_runner_scale_s.Tests.Settings.{fallen_back, outside, loaded}

validate_accepted : validate outside fallen_back ≡ accepted loaded
unfolding validate to_lower split_host_port canonical_path split canonical_host canonical_hostname
validate_accepted = refl

validate-new_scaler_example :
    (s : Scaler) × (new_scaler (scaler_config loaded (pos 7)) ≡ constructed s)
    × (s.scale_set.namespace ≡ "https://github.com/acme/runners")
    × (s.min_runners ≡ 1)
    × (s.max_runners ≡ 3)
validate-new_scaler_example =
    validate-new_scaler outside fallen_back loaded 7 validate_accepted (omega arith)

-- GitHub knows the scale set, and the scaler drains it.
abbrev surroundings : Surroundings
surroundings = record {
  github = github;
  create_github_client = λ q. none;
  create_oxide_client = λ host token. none;
  create_session = λ id. none;
  create_listener = λ id most. none;
  run_peers = (canceled, drained);
  close_session = none;
  delete_scale_set = λ id. none;
}

validate-new_controller_example :
    (q : GithubRequest) × HasCredential outside loaded.github.config_url loaded.github.auth q
    × (new_controller outside surroundings loaded ≡ client_answer none none)
validate-new_controller_example =
    validate-new_controller outside surroundings fallen_back loaded validate_accepted

run_lem_example : ((run surroundings loaded).errors ≡ []) ↔ (
    (x : RunnerScaleSet) × ((ensure_scale_set github (scale_set_settings loaded)).0 ≡ ensured x)
    × ServedAt surroundings loaded x)
run_lem_example = run_lem surroundings loaded

main_run-zero_example : (main_run outside surroundings false "config.yaml" ≡ 0) ↔ (
    (false ≡ true)
    ⊎ ((c : Config) × IsLoaded outside "config.yaml" c
        × HasClients outside surroundings c
        × IsServed surroundings c))
main_run-zero_example = main_run-zero outside surroundings false "config.yaml"

main_run_drains : main_run outside surroundings false "config.yaml" ≡ 0
unfolding main_run to_lower split_host_port canonical_path split canonical_host canonical_hostname
main_run_drains = refl

abbrev built : GoBuildInfo
built = record { main_version = "v1"; settings = ("vcs", "git") ∷ ("vcs.revision", "abc") ∷ [] }

abbrev linked : BuildInfo
linked = record { version = "v2"; commit = "" }

linked_build :
    let reported = get_build_info linked (some built) in
    (reported.version ≢ "")
    × (reported.commit ≢ "")
    × (linked.version ≢ "" → reported.version ≡ linked.version)
    × (linked.commit ≢ "" → reported.commit ≡ linked.commit)
linked_build = get_build_info_lem linked (some built)

reports_revision : get_build_info linked (some built) ≡ record { version = "v2"; commit = "abc" }
unfolding get_build_info
reports_revision = refl
