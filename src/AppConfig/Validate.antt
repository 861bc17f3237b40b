-- ===== src/AppConfig/Validate.antt =====
-- internal/config/config.go, `Validate` and its parts. A part returns the normalized settings; the
-- callers drop the settings where it returns an error.
use oxide_gha_runner_scale_s.Prelude.{
  ℕ, suc, String, Bool, not, none, some, List, [], ◌∷◌, str_eq, ltb, ◌==◌, if◌then◌else◌,
}
use oxide_gha_runner_scale_s.GoMap.{Map, lookup, insert}
use oxide_gha_runner_scale_s.GoStrings.{trim_space, to_lower}
use oxide_gha_runner_scale_s.Scaler.Config.{max_byte_count_gib, max_int32, max_uint16}
use oxide_gha_runner_scale_s.AppConfig.{
  Log, AppAuth, PatAuth, Auth, Oxide, Instance, ScaleSet, Config, Outside, end_of_file,
  another_document, trailing_error, slog_level, text_format, apply_env_fallbacks,
}
use oxide_gha_runner_scale_s.AppConfig.Scope.{
  ScopeError, canonical, rejected, canonical_github_scope,
}

pub data Problem : Type 0 where
  opening parsing multiple_documents : Problem
  config_url_required : Problem
  config_url_invalid : ScopeError → Problem
  only_one_auth auth_required private_key_required pat_token_required : Problem
  app_auth_invalid : String → Problem
  log_level_invalid log_format_invalid : String → Problem
  oxide_host_required oxide_token_required : Problem
  name_required : Problem
  label_required : ℕ → Problem
  label_duplicates : ℕ → ℕ → Problem
  min_above_max max_too_large : Problem
  project_required vpc_required subnet_required image_required : Problem
  boot_disk_too_large cpus_zero cpus_too_many memory_zero memory_too_large : Problem

pub data Checked {ℓ} (A : Type ℓ) : Type ℓ where
  accepted : A → Checked A
  refused : Problem → Checked A

infixl 5 ◌>>=◌
abbrev pub ◌>>=◌ {ℓ κ} : {A : Type ℓ} {B : Type κ} → Checked A → (A → Checked B) → Checked B
accepted a >>= f = f a
refused e >>= f = refused e

-- `if test { return err }`.
abbrev pub refuse_if {ℓ} : {A : Type ℓ} → Bool → Problem → Checked A → Checked A
refuse_if test e rest = if test then refused e else rest

unfoldable pub validate_app_auth : Outside → AppAuth → Checked AppAuth
unfolding trim_space
validate_app_auth o a =
    let a' = record a { client_id = trim_space a.client_id } in
    refuse_if (str_eq (trim_space a.private_key) "") private_key_required
      (elim (o.app_auth_problem a') [
        | some text ↦ refused (app_auth_invalid text)
        | none ↦ accepted a'
      ])

unfoldable pub validate_pat_auth : PatAuth → Checked PatAuth
unfolding trim_space
validate_pat_auth p =
    let token = trim_space p.token in
    refuse_if (str_eq token "") pat_token_required (accepted (record { token = token }))

unfoldable pub validate_auth : Outside → Auth → Checked Auth
unfolding validate_app_auth validate_pat_auth
validate_auth o a = elim a.app [
  | some app ↦ elim a.pat [
    | some pat ↦ refused only_one_auth
    | none ↦ do app' ← validate_app_auth o app; accepted (record a { app = some app' })
  ]
  | none ↦ elim a.pat [
    | some pat ↦ do pat' ← validate_pat_auth pat; accepted (record a { pat = some pat' })
    | none ↦ refused auth_required
  ]
]

unfoldable pub validate_log : Outside → Log → Checked Log
unfolding slog_level text_format
validate_log o l =
    refuse_if (not (slog_level o l).1) (log_level_invalid l.level)
      (refuse_if (not (text_format o l).1) (log_format_invalid l.format) (accepted l))

unfoldable pub validate_oxide : Oxide → Checked Oxide
unfolding trim_space
validate_oxide x =
    let host = trim_space x.host in
    let token = trim_space x.token in
    refuse_if (str_eq host "") oxide_host_required (
      refuse_if (str_eq token "") oxide_token_required
        (accepted (record { host = host; token = token })))

-- The loop over the labels, from an index on; `seen` is `labelIndexes`.
unfoldable pub validate_labels : Outside → Map ℕ → ℕ → List String → Checked (List String)
unfolding trim_space to_lower lookup insert
validate_labels o seen i [] = accepted []
validate_labels o seen i (text ∷ texts) =
    let label = trim_space text in
    let key = to_lower o.lower_beyond label in
    let rest = validate_labels o (insert key i seen) (suc i) texts in
    refuse_if (str_eq label "") (label_required i) (elim (lookup key seen) [
      | some previous ↦ refused (label_duplicates i previous)
      | none ↦ do labels ← rest; accepted (label ∷ labels)
    ])

unfoldable pub validate_instance : Instance → Checked Instance
unfolding trim_space
validate_instance i =
    let i' = record i {
      project = trim_space i.project;
      vpc = trim_space i.vpc;
      subnet = trim_space i.subnet;
      image = trim_space i.image;
    } in
    refuse_if (str_eq i'.project "") project_required (
      refuse_if (str_eq i'.vpc "") vpc_required (
        refuse_if (str_eq i'.subnet "") subnet_required (
          refuse_if (str_eq i'.image "") image_required (
            refuse_if (ltb max_byte_count_gib i.boot_disk_gib) boot_disk_too_large (
              refuse_if (i.cpus == 0) cpus_zero (
                refuse_if (ltb max_uint16 i.cpus) cpus_too_many (
                  refuse_if (i.memory_gib == 0) memory_zero (
                    refuse_if (ltb max_byte_count_gib i.memory_gib) memory_too_large
                      (accepted i')))))))))

unfoldable pub validate_scale_set : Outside → ScaleSet → Checked ScaleSet
unfolding trim_space validate_labels validate_instance
validate_scale_set o s =
    let name = trim_space s.name in
    let runner_group = trim_space s.runner_group in
    refuse_if (str_eq name "") name_required (do
      labels ← validate_labels o [] 0 s.labels
      refuse_if (ltb s.max_runners s.min_runners) min_above_max (
          refuse_if (ltb max_int32 s.max_runners) max_too_large (do
            instance_of ← validate_instance s.instance_of
            accepted (record s {
              name = name;
              runner_group = runner_group;
              labels = labels;
              instance_of = instance_of;
            }))))

-- `c.GitHub.ConfigURL` up to its replacement.
unfoldable pub validate_config_url : Outside → String → Checked String
unfolding canonical_github_scope
validate_config_url o config_url =
    refuse_if (str_eq config_url "") config_url_required
      (elim (canonical_github_scope o config_url) [
        | rejected e ↦ refused (config_url_invalid e)
        | canonical text ↦ accepted text
      ])

unfoldable pub validate : Outside → Config → Checked Config
unfolding validate_config_url validate_auth validate_oxide validate_log validate_scale_set
validate o c = do
  config_url ← validate_config_url o c.github.config_url
  auth ← validate_auth o c.github.auth
  oxide ← validate_oxide c.oxide
  log ← validate_log o c.log
  scale_set ← validate_scale_set o c.scale_set
  accepted (record {
    log = log;
    github = record { config_url = config_url; auth = auth };
    oxide = oxide;
    scale_set = scale_set;
  })

unfoldable pub load : Outside → String → Checked Config
unfolding apply_env_fallbacks validate
load o text = elim (o.decode text) [
  | none ↦ refused parsing
  | some (c, trailing) ↦ elim trailing [
    | trailing_error e ↦ refused parsing
    | another_document ↦ refused multiple_documents
    | end_of_file ↦ validate o (apply_env_fallbacks o c)
  ]
]

unfoldable pub load_file : Outside → String → Checked Config
unfolding load
load_file o path = elim (o.open_file path) [ none ↦ refused opening | some text ↦ load o text ]
