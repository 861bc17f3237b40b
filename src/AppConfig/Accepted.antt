-- ===== src/AppConfig/Accepted.antt =====
-- What holds of a configuration that `Validate` accepted.
use Prim.Native.String.{◌++◌}
use text.Mathlib.TextLemmas.{append-eq-nil_iff}
use mathlib.Core.List.{[] as nil}
use oxide_gha_runner_scale_s.Prelude.{
  String, ◌≡◌, ◌≢◌, ◌≤◌, ◌<◌, ◌⊎◌, refl, sym, subst, ◌∙◌, arith, str_eq_iff, inl, inr, Option-cases,
}
use oxide_gha_runner_scale_s.GoStrings.{trim_space}
use oxide_gha_runner_scale_s.Scaler.Config.{max_byte_count_gib, max_int32, max_uint16}
use oxide_gha_runner_scale_s.AppConfig.{Instance, ScaleSet, Config, Outside, Url}
use oxide_gha_runner_scale_s.AppConfig.Labels.{Checked-cases}
use oxide_gha_runner_scale_s.AppConfig.Scope.{
  Scope, ScopeError, canonical, rejected, canonical_path, canonical_host, canonical_hostname,
  split_host_port, scope_of, canonical_github_scope,
}
use oxide_gha_runner_scale_s.AppConfig.Validate.{
  accepted, validate_labels, validate_instance, validate_scale_set, validate_config_url,
  validate_auth, validate_oxide, validate_log, validate,
}

pub record IsUsable (i : Instance) : Type 0 where
  pub project_named : i.project ≢ ""
  pub image_named : i.image ≢ ""
  pub vpc_named : i.vpc ≢ ""
  pub subnet_named : i.subnet ≢ ""
  pub boot_disk_fits : i.boot_disk_gib ≤ max_byte_count_gib
  pub cpus_fit : (0 < i.cpus) × (i.cpus ≤ max_uint16)
  pub memory_fits : (0 < i.memory_gib) × (i.memory_gib ≤ max_byte_count_gib)

pub record IsServable (c : Config) : Type 0 where
  pub scoped : c.github.config_url ≢ ""
  pub limited :
      (c.scale_set.min_runners ≤ c.scale_set.max_runners) × (c.scale_set.max_runners ≤ max_int32)
  pub launches : IsUsable c.scale_set.instance_of

validate_instance-IsUsable : (i i' : Instance) → validate_instance i ≡ accepted i' → IsUsable i'
unfolding validate_instance
validate_instance-IsUsable i i' h = ground (
  arith,
  str_eq_iff i'.project "",
  str_eq_iff i'.vpc "",
  str_eq_iff i'.subnet "",
  str_eq_iff i'.image "",
)

abbrev HasLimits : ScaleSet → Type 0
HasLimits s = (s.min_runners ≤ s.max_runners) × (s.max_runners ≤ max_int32) × IsUsable s.instance_of

validate_scale_set-HasLimits :
    (o : Outside) (s s' : ScaleSet) → validate_scale_set o s ≡ accepted s' → HasLimits s'
unfolding validate_scale_set
validate_scale_set-HasLimits o s s' h = elim (Checked-cases (validate_labels o nil 0 s.labels)) [
  | inl (e, k) ↦ absurd (ground arith)
  | inr (labels, k) ↦ elim (Checked-cases (validate_instance s.instance_of)) [
    | inl (e, j) ↦ absurd (ground arith)
    | inr (i, j) ↦ (let usable = validate_instance-IsUsable s.instance_of i j in ground arith)
  ]
]

-- A canonical URL starts with `https://`.
abbrev pub HasScheme : String → Type 0
HasScheme text = (rest : String) × (text ≡ "https://" ++ rest)

scope_of-HasScheme :
    (o : Outside) (u : Url) (text : String) → scope_of o u ≡ canonical text → HasScheme text
unfolding scope_of
scope_of-HasScheme o u text h =
    let path = canonical_path o u.path in
    let host = canonical_host (canonical_hostname o u.host) (split_host_port u.host).1 in
    (host ++ "/" ++ path, ground arith)

canonical-HasScheme :
    (o : Outside) (url text : String)
    → canonical_github_scope o url ≡ canonical text
    → HasScheme text
unfolding canonical_github_scope
canonical-HasScheme o url text h = elim (Option-cases (o.url_parse (trim_space url))) [
  | inl k ↦ absurd (ground arith)
  | inr (u, k) ↦ scope_of-HasScheme o u text (ground arith)
]

Scope-cases :
    (x : Scope) → ((e : ScopeError) × (x ≡ rejected e)) ⊎ ((text : String) × (x ≡ canonical text))
Scope-cases (rejected e) = inl (e, refl)
Scope-cases (canonical text) = inr (text, refl)

https-ne-nil : (rest : String) → "https://" ++ rest ≢ ""
https-ne-nil rest h = cc ((append-eq-nil_iff {p = "https://"} {q = rest}).0 h).0

validate_config_url-named :
    (o : Outside) (url text : String) → validate_config_url o url ≡ accepted text → text ≢ ""
unfolding validate_config_url
validate_config_url-named o url text h = elim (Scope-cases (canonical_github_scope o url)) [
  | inl (e, k) ↦ absurd (ground arith)
  | inr (t, k) ↦
      let (rest, starts) = canonical-HasScheme o url t k in
      let same : t ≡ text = ground arith in λ q. https-ne-nil rest (sym starts ∙ same ∙ q)
]

-- What an accepted configuration comes from.
abbrev pub ComesFrom : Outside → Config → Config → Type 0
ComesFrom o c c' =
    (validate_config_url o c.github.config_url ≡ accepted c'.github.config_url)
    × (validate_auth o c.github.auth ≡ accepted c'.github.auth)
    × (validate_oxide c.oxide ≡ accepted c'.oxide)
    × (validate_log o c.log ≡ accepted c'.log)
    × (validate_scale_set o c.scale_set ≡ accepted c'.scale_set)

pub validate-ComesFrom :
    (o : Outside) (c c' : Config) → validate o c ≡ accepted c' → ComesFrom o c c'
unfolding validate
validate-ComesFrom o c c' h = elim (Checked-cases (validate_config_url o c.github.config_url)) [
  | inl (e, k₁) ↦ absurd (ground arith)
  | inr (url, k₁) ↦ elim (Checked-cases (validate_auth o c.github.auth)) [
    | inl (e, k₂) ↦ absurd (ground arith)
    | inr (auth, k₂) ↦ elim (Checked-cases (validate_oxide c.oxide)) [
      | inl (e, k₃) ↦ absurd (ground arith)
      | inr (oxide, k₃) ↦ elim (Checked-cases (validate_log o c.log)) [
        | inl (e, k₄) ↦ absurd (ground arith)
        | inr (log, k₄) ↦ elim (Checked-cases (validate_scale_set o c.scale_set)) [
          | inl (e, k₅) ↦ absurd (ground arith)
          | inr (s, k₅) ↦
              let made : Config = record {
                log = log;
                github = record { config_url = url; auth = auth };
                oxide = oxide;
                scale_set = s;
              } in
              let same : made ≡ c' = ground arith in subst (ComesFrom o c) same (k₁, k₂, k₃, k₄, k₅)
        ]
      ]
    ]
  ]
]

-- A configuration that was accepted has a scope, limits 0 ≤ minimum ≤ maximum < 2^31, and an instance
-- with all its names and with sizes that fit.
pub validate-IsServable : (o : Outside) (c c' : Config) → validate o c ≡ accepted c' → IsServable c'
validate-IsServable o c c' h =
    let parts = validate-ComesFrom o c c' h in
    let limits = validate_scale_set-HasLimits o c.scale_set c'.scale_set parts.4 in
    record {
      scoped = validate_config_url-named o c.github.config_url c'.github.config_url parts.0;
      limited = (limits.0, limits.1);
      launches = limits.2;
    }
