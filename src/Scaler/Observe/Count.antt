-- ===== src/Scaler/Observe/Count.antt =====
-- How many instances an observation finds.
use oxide_gha_runner_scale_s.Prelude.{
  String, ◌+◌, ◌≡◌, ◌≤◌, refl, Option, some, List, [], ◌∷◌, length, count_if, starts_with, arith,
  Bool-cases, inl, inr,
}
use oxide_gha_runner_scale_s.GoMap.{Map, insert, update, count_values-update}
use oxide_gha_runner_scale_s.Api.{Instance, Disk}
use oxide_gha_runner_scale_s.Scaler.Runner.{
  Runner, with_runner, or_new_runner, has_instance, instance_count,
}
use oxide_gha_runner_scale_s.Scaler.Observe.{
  owned_by_name, clear_resources, set_instances, set_disks, observed,
}

update-length {ℓ} :
    {V : Type ℓ} (k : String) (f : Option V → V) (m : Map V) → length (update k f m) ≤ length m + 1
unfolding update
update-length k f [] = omega arith
update-length k f ((j, v) ∷ m) = ground (arith, update-length k f m)

owned_by_name-length {ℓ} :
    {A : Type ℓ} (prefix : String) (name_of : A → String) (xs : List A) (owned : Map A)
    → length (owned_by_name prefix name_of xs owned)
      ≤ length owned + count_if (λ a. starts_with (name_of a) prefix) xs
unfolding owned_by_name insert
owned_by_name-length prefix name_of [] owned = omega arith
owned_by_name-length prefix name_of (a ∷ xs) owned =
    elim (Bool-cases (starts_with (name_of a) prefix)) [
      | inl own ↦ rw own (
          omega (
            arith,
            update-length (name_of a) (λ _. a) owned,
            owned_by_name-length prefix name_of xs (update (name_of a) (λ _. a) owned),
          ))
      | inr other ↦ rw other (omega (arith, owned_by_name-length prefix name_of xs owned))
    ]

clear_resources-instance_count : (m : Map Runner) → instance_count (clear_resources m) ≡ 0
unfolding clear_resources instance_count
clear_resources-instance_count [] = refl
clear_resources-instance_count ((k, r) ∷ m) = omega (arith, clear_resources-instance_count m)

set_instances-instance_count :
    (is : Map Instance) (m : Map Runner)
    → instance_count (set_instances is m) ≤ instance_count m + length is
unfolding set_instances with_runner instance_count
set_instances-instance_count [] m = omega arith
set_instances-instance_count ((k, i) ∷ is) m = ground (
  arith,
  set_instances-instance_count is
      (update k (λ o. record (or_new_runner k o) { instance_of = some i }) m),
  count_values-update has_instance k (λ o. record (or_new_runner k o) { instance_of = some i }) m,
)

set_disks-instance_count :
    (ds : Map Disk) (m : Map Runner) → instance_count (set_disks ds m) ≡ instance_count m
unfolding set_disks with_runner instance_count
set_disks-instance_count [] m = refl
set_disks-instance_count ((k, d) ∷ ds) m = ground (
  arith,
  set_disks-instance_count ds (update k (λ o. record (or_new_runner k o) { disk = some d }) m),
  count_values-update has_instance k (λ o. record (or_new_runner k o) { disk = some d }) m,
)

-- An observation finds at most as many instances as the listing has with the scaler's prefix.
pub observed-instance_count :
    (prefix : String) (is : List Instance) (ds : Map Disk) (m : Map Runner)
    → instance_count (observed (owned_by_name prefix (λ i. i.name) is []) ds m)
      ≤ count_if (λ i. starts_with i.name prefix) is
unfolding observed
observed-instance_count prefix is ds m =
    let owned = owned_by_name prefix (λ i. i.name) is [] in
    omega (
      arith,
      set_disks-instance_count ds (set_instances owned (clear_resources m)),
      set_instances-instance_count owned (clear_resources m),
      clear_resources-instance_count m,
      owned_by_name-length prefix (λ i. i.name) is [],
    )
