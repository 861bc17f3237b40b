-- ===== src/Scaler/Config/Accepts.antt =====
-- What a scaler configuration is accepted for.
use oxide_gha_runner_scale_s.Prelude.{
  true, false, ltb_ℤ, ◌≡◌, ◌≢◌, ◌≤◌, ◌<◌, ◌↔◌, Option, none, some, ℤ, pos, negsuc, str_eq_iff,
  arith, refl,
}
use oxide_gha_runner_scale_s.Scaler.Config.{
  InstanceConfig, Config, max_byte_count_gib, max_uint16, max_int32,
}
use oxide_gha_runner_scale_s.Scaler.Config.Validate.{
  InstanceError, validate_instance, validate, instance_result,
}

pub record IsValidInstance (c : InstanceConfig) : Type 0 where
  pub project_named : c.project ≢ ""
  pub image_named : c.image ≢ ""
  pub vpc_named : c.vpc ≢ ""
  pub subnet_named : c.subnet ≢ ""
  pub boot_disk_fits : c.boot_disk_gib ≤ max_byte_count_gib
  pub cpus_fit : (0 < c.cpus) × (c.cpus ≤ max_uint16)
  pub memory_fits : (0 < c.memory_gib) × (c.memory_gib ≤ max_byte_count_gib)

-- The limits as numbers: 0 ≤ least ≤ most, and most is an int32.
abbrev pub HaveLimits : ℤ → ℤ → Type 0
HaveLimits (pos least) (pos most) = (least ≤ most) × (most ≤ max_int32)
HaveLimits (pos least) (negsuc n) = ⊥
HaveLimits (negsuc n) most = ⊥

abbrev pub IsPositive : ℤ → Type 0
IsPositive (pos n) = 0 < n
IsPositive (negsuc n) = ⊥

pub record IsValid (c : Config) : Type 0 where
  pub namespaced : c.scale_set.namespace ≢ ""
  pub identified : IsPositive c.scale_set.id
  pub limited : HaveLimits c.min_runners c.max_runners
  pub launches : IsValidInstance c.instance_config

validate_instance_iff : (c : InstanceConfig) → (validate_instance c ≡ none) ↔ IsValidInstance c
unfolding validate_instance
validate_instance_iff c = (
  λ h. ground (
    arith,
    str_eq_iff c.project "",
    str_eq_iff c.image "",
    str_eq_iff c.vpc "",
    str_eq_iff c.subnet "",
  ),
  λ v. ground (
    arith,
    str_eq_iff c.project "",
    str_eq_iff c.image "",
    str_eq_iff c.vpc "",
    str_eq_iff c.subnet "",
  ),
)

limits_iff :
    (least most : ℤ)
    → ((ltb_ℤ least (pos 0) ≡ false)
        × (ltb_ℤ most (pos 0) ≡ false)
        × (ltb_ℤ most least ≡ false)
        × (ltb_ℤ (pos max_int32) most ≡ false))
      ↔ HaveLimits least most
limits_iff (pos least) (pos most) = (λ h. ground arith, λ h. ground arith)
limits_iff (pos least) (negsuc n) = (λ h. ground arith, λ h. elim h [ ])
limits_iff (negsuc n) most = (λ h. ground arith, λ h. elim h [ ])

zero_less-IsPositive : (n : ℤ) → (ltb_ℤ (pos 0) n ≡ true) ↔ IsPositive n
zero_less-IsPositive (pos n) = (λ h. ground arith, λ h. ground arith)
zero_less-IsPositive (negsuc n) = (λ h. ground arith, λ h. elim h [ ])

instance_result_iff : (o : Option InstanceError) → (instance_result o ≡ none) ↔ (o ≡ none)
instance_result_iff none = (λ h. refl, λ h. refl)
instance_result_iff (some e) = (λ h. cc, λ h. cc)

-- A configuration is accepted exactly if it has a namespace, a positive scale set id, limits
-- 0 ≤ minimum ≤ maximum < 2^31, and an instance with all its names, between 1 and 65535 CPUs, and
-- memory (at least 1 GiB) and boot disk whose sizes in bytes fit 64 bits.
pub validate_iff : (c : Config) → (validate c ≡ none) ↔ IsValid c
unfolding validate
validate_iff c =
    let limits = limits_iff c.min_runners c.max_runners in
    let positive = zero_less-IsPositive c.scale_set.id in
    let instances = instance_result_iff (validate_instance c.instance_config) in
    let instance_config = validate_instance_iff c.instance_config in
    (
      λ h. ground (
        arith,
        str_eq_iff c.scale_set.namespace "",
        limits,
        positive,
        instances,
        instance_config,
      ),
      λ v. ground (
        arith,
        str_eq_iff c.scale_set.namespace "",
        limits,
        positive,
        instances,
        instance_config,
      ),
    )
