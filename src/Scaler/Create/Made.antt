-- ===== src/Scaler/Create/Made.antt =====
-- What can be relied on of a scaler that `New` made.
use oxide_gha_runner_scale_s.Prelude.{
  ℕ, String, [], false, ◌≡◌, ◌≤◌, ◌∙◌, sym, ◌<◌, ◌+◌, ◌*◌, ◌↔◌, none, ℤ, pos, negsuc, min, arith,
  refl, Option-cases, inl, inr, pos_part,
}
use oxide_gha_runner_scale_s.Api.{Image}
use oxide_gha_runner_scale_s.Scaler.Config.{Config, bytes_per_gib, max_int32}
use oxide_gha_runner_scale_s.Scaler.Config.Validate.{validate}
use oxide_gha_runner_scale_s.Scaler.Config.Accepts.{IsValid, HaveLimits, validate_iff}
use oxide_gha_runner_scale_s.Scaler.World.{World, Scaler}
use oxide_gha_runner_scale_s.Scaler.Provision.{create_params}
use oxide_gha_runner_scale_s.Scaler.Reconcile.{target_count}
use oxide_gha_runner_scale_s.Scaler.Create.{constructed, scaler_of, new_scaler}

constructed_iff :
    (c : Config) (s : Scaler)
    → (new_scaler c ≡ constructed s) ↔ ((validate c ≡ none) × (scaler_of c ≡ s))
unfolding new_scaler
constructed_iff c s = elim (Option-cases (validate c)) [
  | inl h ↦ rw h ((λ e. (refl, cc)), (λ e. cc))
  | inr (e, h) ↦ rw h ((λ x. cc), (λ x. cc))
]

HaveLimits-natural :
    (least most : ℤ)
    → HaveLimits least most
    → (pos (pos_part least) ≡ least)
      × (pos (pos_part most) ≡ most)
      × (pos_part least ≤ pos_part most)
      × (pos_part most ≤ max_int32)
HaveLimits-natural (pos least) (pos most) (a, b) = (refl, refl, a, b)
HaveLimits-natural (pos least) (negsuc n) h = elim h [ ]
HaveLimits-natural (negsuc n) most h = elim h [ ]

-- `New` makes a scaler exactly from a valid configuration; this has the configuration's
-- scale set, instance and limits, knows no demand, and has nothing in its inbox and no wake-up.
pub new_scaler_iff :
    (c : Config) (s : Scaler)
    → (new_scaler c ≡ constructed s) ↔ (
        IsValid c
        × (s.scale_set ≡ c.scale_set)
        × (s.instance_config ≡ c.instance_config)
        × (pos s.min_runners ≡ c.min_runners)
        × (pos s.max_runners ≡ c.max_runners)
        × (s.desired_runner_count ≡ negsuc 0)
        × (s.job_events ≡ [])
        × (s.active_runner_count ≡ 0)
        × (s.wake ≡ false))
unfolding scaler_of
new_scaler_iff c s =
    let made = constructed_iff c s in
    let valid = validate_iff c in
    (
      λ e.
          (let (accepted, same) = made.0 e in
            let v = valid.0 accepted in
            let (least, most, _, _) = HaveLimits-natural c.min_runners c.max_runners v.limited in
            (
              v,
              cc,
              cc,
              (λ i. pos (sym same i).min_runners) ∙ least,
              (λ i. pos (sym same i).max_runners) ∙ most,
              cc,
              cc,
              cc,
              cc,
            )),
      λ (v, f1, f2, f3, f4, f5, f6, f7, f8).
          (let least : pos_part c.min_runners ≡ s.min_runners = λ i. pos_part (sym f3 i) in
            let most : pos_part c.max_runners ≡ s.max_runners = λ i. pos_part (sym f4 i) in
            made.1 (valid.1 v, cc)),
    )

-- The limits of a scaler that `New` made.
new_scaler-limits :
    (c : Config) (s : Scaler)
    → new_scaler c ≡ constructed s
    → (s.min_runners ≤ s.max_runners) × (s.max_runners ≤ max_int32)
new_scaler-limits c s made =
    let facts = (new_scaler_iff c s).0 made in
    let least : pos_part c.min_runners ≡ s.min_runners = λ i. pos_part (sym facts.3 i) in
    let most : pos_part c.max_runners ≡ s.max_runners = λ i. pos_part (sym facts.4 i) in
    let (_, _, ordered, fits) = HaveLimits-natural c.min_runners c.max_runners facts.0.limited in
    (omega arith, omega arith)

-- For a scaler that `New` made, the target that follows from any demand below 2^62 is the demand
-- plus the minimum, cut off at the maximum, without wrapping around; it lies between the two limits.
pub new_scaler-target_count :
    (c : Config) (s : Scaler) (d : ℕ)
    → new_scaler c ≡ constructed s
    → d < 4611686018427387904
    → (target : ℕ) × (target_count (pos d) s.min_runners s.max_runners ≡ pos target)
      × (target ≡ min (d + s.min_runners) s.max_runners)
      × (s.min_runners ≤ target)
      × (target ≤ s.max_runners)
unfolding target_count
new_scaler-target_count c s d made small =
    let (ordered, fits) = new_scaler-limits c s made in
    (min (d + s.min_runners) s.max_runners, ground arith, refl, omega arith, omega arith)

-- The requests of a scaler that `New` made ask for exactly the configured memory and CPUs, at least
-- one GiB and one CPU: no conversion or product wraps around.
pub new_scaler-create_params :
    (w : World) (c : Config) (s : Scaler) (name : String) (image : Image) (jit : String)
    → new_scaler c ≡ constructed s
    → let p = create_params w s name image jit in
      (p.memory ≡ c.instance_config.memory_gib * bytes_per_gib)
      × (p.ncpus ≡ c.instance_config.cpus)
      × (bytes_per_gib ≤ p.memory)
      × (1 ≤ p.ncpus)
unfolding create_params
new_scaler-create_params w c s name image jit made =
    let facts = (new_scaler_iff c s).0 made in
    let same = facts.2 in
    let launches = facts.0.launches in
    let cpus = launches.cpus_fit in
    let memory = launches.memory_fits in
    rw same (omega arith, omega arith, omega arith, omega arith)
