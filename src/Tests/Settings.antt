-- ===== src/Tests/Settings.antt =====
-- The application configuration, at concrete inputs.
use oxide_gha_runner_scale_s.Prelude.{false, none, some, [], ◌∷◌, map, All, ◌≡◌, ◌≢◌, ◌↔◌, refl}
use oxide_gha_runner_scale_s.GoStrings.{trim_space, to_lower, split}
use oxide_gha_runner_scale_s.AppConfig.{
  Config, Auth, ScaleSet, Url, Outside, end_of_file, apply_env_fallbacks, runner_labels,
  logger_options, debug,
}
use oxide_gha_runner_scale_s.AppConfig.Scope.{
  canonical, canonical_github_scope, canonical_path, canonical_host, canonical_hostname,
  split_host_port,
}
use oxide_gha_runner_scale_s.AppConfig.Scope.Canonical.{
  IsScope, IsCanonical, canonical_github_scope_iff,
}
use oxide_gha_runner_scale_s.AppConfig.Labels.{Apart, validate_labels_iff}
use oxide_gha_runner_scale_s.AppConfig.LabelErrors.{Means, validate_labels-refused}
use oxide_gha_runner_scale_s.AppConfig.Idempotent.{validate_scale_set_idem}
use oxide_gha_runner_scale_s.AppConfig.RunnerLabels.{configured, runner_labels_lem}
use oxide_gha_runner_scale_s.AppConfig.Fallbacks.{KeepsAuth, apply_env_fallbacks_lem}
use oxide_gha_runner_scale_s.AppConfig.Validate.{
  accepted, refused, validate_labels, validate_scale_set, load_file, label_duplicates,
}

-- The URL that every text parses as.
abbrev some_url : Url
some_url = record {
  scheme = "https";
  has_user = false;
  host = "WWW.GitHub.com:443";
  raw_query = "";
  fragment = "";
  path = "/Acme/Runners/";
}

abbrev pat_only : Auth
pat_only = record { app = none; pat = some (record { token = " secret " }) }

abbrev pub scale_set : ScaleSet
scale_set = record {
  name = " ci ";
  runner_group = "";
  labels = "Linux " ∷ " arm" ∷ [];
  min_runners = 1;
  max_runners = 3;
  instance_of = record {
    project = "ci";
    image = "runner";
    boot_disk_gib = 10;
    cpus = 4;
    memory_gib = 16;
    vpc = "default";
    subnet = " default ";
  };
}

abbrev pub config : Config
config = record {
  log = record { level = "DEBUG"; format = "" };
  github = record { config_url = "https://WWW.GitHub.com:443/Acme/Runners/"; auth = pat_only };
  oxide = record { host = "https://oxide.example"; token = "" };
  scale_set = scale_set;
}

abbrev pub outside : Outside
outside = record {
  getenv = λ name. "from-env";
  lower_beyond = λ c. c;
  url_parse = λ text. some some_url;
  app_auth_problem = λ a. none;
  open_file = λ path. some "text";
  decode = λ text. some (config, end_of_file);
}

scope_canonical :
    canonical_github_scope outside config.github.config_url
    ≡ canonical "https://github.com/acme/runners"
unfolding canonical_github_scope to_lower split_host_port canonical_path split canonical_host
    canonical_hostname
scope_canonical = refl

logs_debug : logger_options outside config.log ≡ (debug, false)
unfolding logger_options
logs_debug = refl

labels_twice :
    validate_labels outside [] 0 ("Linux" ∷ "arm" ∷ " linux" ∷ []) ≡ refused (label_duplicates 2 0)
unfolding validate_labels
labels_twice = refl

canonical_github_scope_iff_example :
    (canonical_github_scope outside "x" ≡ canonical "https://github.com/acme/runners") ↔ (
      (u : Url) × (some some_url ≡ some u)
      × IsScope outside u
      × IsCanonical outside u "https://github.com/acme/runners")
canonical_github_scope_iff_example =
    canonical_github_scope_iff outside "x" "https://github.com/acme/runners"

validate_labels_iff_example :
    (validate_labels outside [] 0 scale_set.labels ≡ accepted ("Linux" ∷ "arm" ∷ [])) ↔ (
      ("Linux" ∷ "arm" ∷ [] ≡ map trim_space scale_set.labels)
      × All (λ u. trim_space u ≢ "") scale_set.labels
      × Apart outside scale_set.labels)
validate_labels_iff_example = validate_labels_iff outside scale_set.labels ("Linux" ∷ "arm" ∷ [])

validate_labels-refused_example :
    Means outside ("Linux" ∷ "arm" ∷ " linux" ∷ []) (label_duplicates 2 0)
validate_labels-refused_example =
    validate_labels-refused outside ("Linux" ∷ "arm" ∷ " linux" ∷ []) (label_duplicates 2 0)
      labels_twice

-- The scale set with its texts trimmed.
abbrev trimmed : ScaleSet
trimmed = record scale_set {
  name = "ci";
  labels = "Linux" ∷ "arm" ∷ [];
  instance_of = record scale_set.instance_of { subnet = "default" };
}

scale_set_accepted : validate_scale_set outside scale_set ≡ accepted trimmed
unfolding validate_scale_set
scale_set_accepted = refl

validate_scale_set_idem_example : validate_scale_set outside trimmed ≡ accepted trimmed
validate_scale_set_idem_example =
    validate_scale_set_idem outside scale_set trimmed scale_set_accepted

runner_labels_lem_example :
    (runner_labels trimmed ≡ configured (trim_space " ci ") (map trim_space scale_set.labels))
    × (runner_labels trimmed ≢ [])
    × All (λ u. u ≢ "") (runner_labels trimmed)
    × Apart outside (runner_labels trimmed)
runner_labels_lem_example = runner_labels_lem outside scale_set trimmed scale_set_accepted

apply_env_fallbacks_lem_example :
    let c' = apply_env_fallbacks outside config in
    (config.oxide.host ≢ "" → c'.oxide.host ≡ config.oxide.host)
    × (config.oxide.token ≢ "" → c'.oxide.token ≡ config.oxide.token)
    × KeepsAuth config.github.auth c'.github.auth
    × (apply_env_fallbacks outside c' ≡ c')
apply_env_fallbacks_lem_example = apply_env_fallbacks_lem outside config

-- The configuration as it is loaded.
abbrev pub loaded : Config
loaded = record {
  log = config.log;
  github = record {
    config_url = "https://github.com/acme/runners";
    auth = record { app = none; pat = some (record { token = "secret" }) };
  };
  oxide = record { host = "https://oxide.example"; token = "from-env" };
  scale_set = trimmed;
}

load_file_accepted : load_file outside "config.yaml" ≡ accepted loaded
unfolding load_file to_lower split_host_port canonical_path split canonical_host canonical_hostname
load_file_accepted = refl

abbrev pub fallen_back : Config
fallen_back = record config { oxide = record config.oxide { token = "from-env" } }
