-- ===== src/Controller/Handover.antt =====
-- What the scaler and the clients can rely on of an accepted configuration.
use mathlib.Core.Option
use oxide_gha_runner_scale_s.Prelude.{
  ℕ, String, true, Option, none, some, ◌≡◌, ◌≤◌, ◌<◌, pos, ltb, pos_part, refl, arith,
}
use oxide_gha_runner_scale_s.AppConfig
use oxide_gha_runner_scale_s.AppConfig.{Outside}
use oxide_gha_runner_scale_s.AppConfig.Validate.{accepted, validate}
use oxide_gha_runner_scale_s.AppConfig.Accepted.{
  IsServable, validate-ComesFrom, validate-IsServable,
}
use oxide_gha_runner_scale_s.AppConfig.Idempotent.{validate_auth_idem}
use oxide_gha_runner_scale_s.Scaler.Config
use oxide_gha_runner_scale_s.Scaler.Config.Accepts.{IsValid, HaveLimits, validate_iff}
use oxide_gha_runner_scale_s.Scaler.World.{Scaler}
use oxide_gha_runner_scale_s.Scaler.Create.{constructed, new_scaler, scaler_of, construction}
use oxide_gha_runner_scale_s.AppConfig.Clients.{GithubRequest}
use oxide_gha_runner_scale_s.AppConfig.Clients.Credential.{
  HasCredential, validate_auth-HasCredential,
}
use oxide_gha_runner_scale_s.Controller.Start.{
  to_int, scaler_config, Surroundings, new_controller, ClientError, github_error, oxide_error,
  scale_set_client, oxide_client,
}

-- The configuration of the scaler that comes from an accepted configuration is valid.
to_int_small : (n : ℕ) → n ≤ Config.max_int32 → to_int n ≡ pos n
to_int_small n h = let small : ltb n 9223372036854775808 ≡ true = ground arith in rw small

limits_fit :
    (least most : ℕ)
    → least ≤ most
    → most ≤ Config.max_int32
    → HaveLimits (to_int least) (to_int most)
limits_fit least most h k = rw (to_int_small least (omega arith), to_int_small most k) (h, k)

scaler_config-IsValid :
    (c : AppConfig.Config) (n : ℕ) → IsServable c → 0 < n → IsValid (scaler_config c (pos n))
unfolding scaler_config
scaler_config-IsValid c n v positive = record {
  namespaced = v.scoped;
  identified = positive;
  limited = limits_fit c.scale_set.min_runners c.scale_set.max_runners v.limited.0 v.limited.1;
  launches = record {
    project_named = v.launches.project_named;
    image_named = v.launches.image_named;
    vpc_named = v.launches.vpc_named;
    subnet_named = v.launches.subnet_named;
    boot_disk_fits = v.launches.boot_disk_fits;
    cpus_fit = v.launches.cpus_fit;
    memory_fits = v.launches.memory_fits;
  };
}

-- A configuration that the process accepts never fails in the scaler: `New` makes a scaler with its
-- limits, under its canonical URL, for every positive scale set id.
pub validate-new_scaler :
    (o : Outside) (c c' : AppConfig.Config) (n : ℕ)
    → validate o c ≡ accepted c'
    → 0 < n
    → (s : Scaler) × (new_scaler (scaler_config c' (pos n)) ≡ constructed s)
      × (s.scale_set.namespace ≡ c'.github.config_url)
      × (s.min_runners ≡ c'.scale_set.min_runners)
      × (s.max_runners ≡ c'.scale_set.max_runners)
unfolding new_scaler scaler_of scaler_config
validate-new_scaler o c c' n h positive =
    let v = validate-IsServable o c c' h in
    let least = v.limited.0 in
    let most = v.limited.1 in
    let config = scaler_config c' (pos n) in
    let valid = (validate_iff config).1 (scaler_config-IsValid c' n v positive) in
    (
      scaler_of config,
      (λ i. construction config (valid i)),
      refl,
      (λ i. pos_part (to_int_small c'.scale_set.min_runners (omega arith) i)),
      (λ i. pos_part (to_int_small c'.scale_set.max_runners most i)),
    )

-- What `newController` makes of the answers of the two libraries.
abbrev pub client_answer : Option String → Option String → Option ClientError
client_answer (some text) oxide = some (github_error text)
client_answer none oxide = Option.map oxide_error oxide

answered :
    (a : Option String) (b : Option ClientError) (oxide : Option String)
    → b ≡ Option.map oxide_error oxide
    → elim (Option.map github_error a) as (λ _. Option ClientError) [ some e ↦ some e | none ↦ b ]
      ≡ client_answer a oxide
answered none b oxide h = h
answered (some text) b oxide h = refl

-- A configuration that the process accepts never fails in `ScaleSetClient`, which validates its
-- authentication once more: `newController` asks the GitHub library for a client with the canonical
-- URL and the one credential that is configured, then the Oxide library with host and token, and
-- fails exactly if one of them does. The private key is not blank, and the token is not empty.
pub validate-new_controller :
    (o : Outside) (w : Surroundings) (c c' : AppConfig.Config)
    → validate o c ≡ accepted c'
    → (q : GithubRequest) × HasCredential o c'.github.config_url c'.github.auth q
      × (new_controller o w c'
          ≡ client_answer
              (w.create_github_client q)
              (w.create_oxide_client c'.oxide.host c'.oxide.token))
unfolding new_controller scale_set_client oxide_client
validate-new_controller o w c c' h =
    let first = (validate-ComesFrom o c c' h).1 in
    let again = validate_auth_idem o c.github.auth c'.github.auth first in
    let (q, asked, has) =
      validate_auth-HasCredential o c'.github.config_url c'.github.auth c'.github.auth again in
    (
      q,
      has,
      rw (new_controller, scale_set_client, again, asked)
          (answered (w.create_github_client q) _ _ refl),
    )
