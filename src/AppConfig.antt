-- ===== src/AppConfig.antt =====
-- internal/config/config.go: the configuration file, the fallbacks to the environment, the logging
-- options and the runner labels. `Validate` and its parts are in the modules below.
pub mod Scope
pub mod Validate
pub mod Fallbacks
pub mod Labels
pub mod LabelErrors
pub mod Idempotent
pub mod Accepted
pub mod RunnerLabels
pub mod Clients
pub mod Loaded
use Prim.Native.Char.{Char}
use oxide_gha_runner_scale_s.Prelude.{
  ℕ, String, Bool, true, false, Option, none, some, List, [], ◌∷◌, map, ℤ, str_eq, if◌then◌else◌,
}
use oxide_gha_runner_scale_s.GoStrings.{trim_space, to_lower}

pub record Log : Type 0 where
  pub level : String
  pub format : String

pub record AppAuth : Type 0 where
  pub client_id : String
  pub installation_id : ℤ
  pub private_key : String

pub record PatAuth : Type 0 where
  pub token : String

pub record Auth : Type 0 where
  pub app : Option AppAuth
  pub pat : Option PatAuth

pub record GitHub : Type 0 where
  pub config_url : String
  pub auth : Auth

pub record Oxide : Type 0 where
  pub host : String
  pub token : String

pub record Instance : Type 0 where
  pub project : String
  pub image : String
  pub boot_disk_gib : ℕ  -- uint
  pub cpus : ℕ  -- uint
  pub memory_gib : ℕ  -- uint
  pub vpc : String
  pub subnet : String

pub record ScaleSet : Type 0 where
  pub name : String
  pub runner_group : String
  pub labels : List String
  pub min_runners : ℕ  -- uint
  pub max_runners : ℕ  -- uint
  pub instance_of : Instance

pub record Config : Type 0 where
  pub log : Log
  pub github : GitHub
  pub oxide : Oxide
  pub scale_set : ScaleSet

-- A parsed URL, as far as the source reads it.
pub record Url : Type 0 where
  pub scheme : String
  pub has_user : Bool
  pub host : String  -- with the port
  pub raw_query : String
  pub fragment : String
  pub path : String

-- What comes behind the first document of the file.
pub data Trailing : Type 0 where
  end_of_file another_document : Trailing
  trailing_error : String → Trailing

-- What the source does not implement: the environment, the table of lower case letters beyond
-- ASCII, `url.Parse`, the validation of the GitHub library, and opening and decoding the file.
pub record Outside : Type 0 where
  pub getenv : String → String
  pub lower_beyond : Char → Char
  pub url_parse : String → Option Url
  pub app_auth_problem : AppAuth → Option String
  pub open_file : String → Option String
  pub decode : String → Option (Config × Trailing)

-- `s = fallback` where s is empty.
abbrev pub or_fallback : String → String → String
or_fallback s fallback = if str_eq s "" then fallback else s

unfoldable pub fallback_auth : Outside → Auth → Auth
fallback_auth o a = elim a.app [
  | some app ↦ record a {
    app = some (record app {
      private_key = or_fallback app.private_key (o.getenv "GITHUB_APP_PRIVATE_KEY");
    });
  }
  | none ↦ elim a.pat [
    | some pat ↦ record a {
      pat = some (record { token = or_fallback pat.token (o.getenv "GITHUB_TOKEN") });
    }
    | none ↦
        if str_eq (o.getenv "GITHUB_TOKEN") ""
        then a
        else record a { pat = some (record { token = o.getenv "GITHUB_TOKEN" }) }
  ]
]

unfoldable pub apply_env_fallbacks : Outside → Config → Config
unfolding fallback_auth
apply_env_fallbacks o c = record c {
  oxide = record {
    host = or_fallback c.oxide.host (o.getenv "OXIDE_HOST");
    token = or_fallback c.oxide.token (o.getenv "OXIDE_TOKEN");
  };
  github = record c.github { auth = fallback_auth o c.github.auth };
}

pub data Level : Type 0 where
  debug info warn error : Level

-- The level, and whether the text names one.
unfoldable pub slog_level : Outside → Log → Level × Bool
unfolding to_lower
slog_level o l =
    let text = to_lower o.lower_beyond l.level in
    if str_eq text ""
    then (info, true)
    else (if str_eq text "info"
        then (info, true)
        else (if str_eq text "debug"
            then (debug, true)
            else (if str_eq text "warn"
                then (warn, true)
                else (if str_eq text "error" then (error, true) else (info, false)))))

-- Whether the format is text, and whether the text names a format.
unfoldable pub text_format : Outside → Log → Bool × Bool
unfolding to_lower
text_format o l =
    let text = to_lower o.lower_beyond l.format in
    if str_eq text ""
    then (false, true)
    else (if str_eq text "json"
        then (false, true)
        else (if str_eq text "text" then (true, true) else (false, false)))

-- What `Logger` gives to the handler: the level, and whether it writes text.
unfoldable pub logger_options : Outside → Log → Level × Bool
unfolding slog_level text_format
logger_options o l = ((slog_level o l).0, (text_format o l).0)

-- The names of `RunnerLabels`.
unfoldable pub runner_labels : ScaleSet → List String
unfolding trim_space
runner_labels s = elim s.labels [
  | [] ↦ s.name ∷ []
  | label ∷ labels ↦ map trim_space (label ∷ labels)
]
