-- ===== src/Scaler/Observe/View.antt =====
-- What the view of a runner is after an observation.
use oxide_gha_runner_scale_s.Prelude.{
  String, ◌≡◌, refl, ◌∙◌, none, some, Option, List, [], ◌∷◌, if◌then◌else◌, starts_with, str_eq,
  str_eq_iff, arith, inl, inr, Bool-cases,
}
use oxide_gha_runner_scale_s.GoMap.{
  Map, lookup, insert, update, lookup-update, lookup-insert, Unique, insert-Unique,
}
use oxide_gha_runner_scale_s.Api.{Log, ok, Instance, Disk, instances_listed}
use oxide_gha_runner_scale_s.Scaler.Runner.{Runner, with_runner, or_new_runner}
use oxide_gha_runner_scale_s.Scaler.World.{World, Scaler}
use oxide_gha_runner_scale_s.Scaler.Names.{name_prefix}
use oxide_gha_runner_scale_s.Scaler.Observe.{
  owned_by_name, clear_resources, set_instances, set_disks, observed, observe_runners,
}

abbrev or_before {ℓ} : {A : Type ℓ} → Option A → Option A → Option A
or_before none o = o
or_before (some a) o = some a

or_before-none {ℓ} : {A : Type ℓ} (o : Option A) → or_before o none ≡ o
or_before-none none = refl
or_before-none (some a) = refl

module _ {ℓ} {A : Type ℓ} (prefix : String) (name_of : A → String) where
  -- The last entry of a listing that has a name.
  abbrev pub last_named : String → List A → Option A
  last_named k [] = none
  last_named k (a ∷ xs) =
      let rest = last_named k xs in
      elim rest [ some b ↦ some b | none ↦ if str_eq (name_of a) k then some a else none ]

  -- What a listing says of a name: nothing if the name has not the scaler's prefix.
  abbrev pub owned_in : String → List A → Option A
  owned_in k xs = if starts_with k prefix then last_named k xs else none

  owned_by_name-lookup :
      (k : String) (xs : List A) (owned : Map A)
      → lookup k (owned_by_name prefix name_of xs owned)
        ≡ or_before (owned_in k xs) (lookup k owned)
  unfolding owned_by_name
  owned_by_name-lookup k [] owned = ground arith
  owned_by_name-lookup k (a ∷ xs) owned = ground (
    arith,
    owned_by_name-lookup k xs
        (if starts_with (name_of a) prefix then insert (name_of a) a owned else owned),
    lookup-insert (name_of a) k a owned,
    str_eq_iff (name_of a) k,
  )

  -- Read back, the map of owned entries is what the listing says of each name.
  owned_by_name_lem :
      (k : String) (xs : List A) → lookup k (owned_by_name prefix name_of xs []) ≡ owned_in k xs
  unfolding lookup
  owned_by_name_lem k xs = owned_by_name-lookup k xs [] ∙ or_before-none (owned_in k xs)

  owned_by_name-Unique :
      (xs : List A) (owned : Map A) → Unique owned → Unique (owned_by_name prefix name_of xs owned)
  unfolding owned_by_name
  owned_by_name-Unique [] owned u = u
  owned_by_name-Unique (a ∷ xs) owned u = elim (Bool-cases (starts_with (name_of a) prefix)) [
    | inl own ↦
        rw own (
          owned_by_name-Unique xs (insert (name_of a) a owned)
            (insert-Unique (name_of a) a owned u))
    | inr other ↦ rw other (owned_by_name-Unique xs owned u)
  ]

module _ (k : String) where
  -- The runner at the name, cleared, if there is one.
  abbrev cleared : Option Runner → Option Runner
  cleared none = none
  cleared (some r) = some (record r { instance_of = none; disk = none })

  clear_resources-lookup : (m : Map Runner) → lookup k (clear_resources m) ≡ cleared (lookup k m)
  unfolding lookup clear_resources
  clear_resources-lookup [] = refl
  clear_resources-lookup ((j, r) ∷ m) = ground (arith, clear_resources-lookup m)

  abbrev with_instance : Option Instance → Option Runner → Option Runner
  with_instance none o = o
  with_instance (some i) o = some (record (or_new_runner k o) { instance_of = some i })

  set_instances-lookup :
      (is : Map Instance) (m : Map Runner)
      → Unique is
      → lookup k (set_instances is m) ≡ with_instance (lookup k is) (lookup k m)
  unfolding set_instances with_runner lookup
  set_instances-lookup [] m u = refl
  set_instances-lookup ((j, i) ∷ is) m u = ground (
    arith,
    str_eq_iff j k,
    set_instances-lookup is (update j (λ o. record (or_new_runner j o) { instance_of = some i }) m)
        u.1,
    lookup-update j k (λ o. record (or_new_runner j o) { instance_of = some i }) m,
    u.0,
  )

  abbrev with_disk : Option Disk → Option Runner → Option Runner
  with_disk none o = o
  with_disk (some d) o = some (record (or_new_runner k o) { disk = some d })

  set_disks-lookup :
      (ds : Map Disk) (m : Map Runner)
      → Unique ds
      → lookup k (set_disks ds m) ≡ with_disk (lookup k ds) (lookup k m)
  unfolding set_disks with_runner lookup
  set_disks-lookup [] m u = refl
  set_disks-lookup ((j, d) ∷ ds) m u = ground (
    arith,
    str_eq_iff j k,
    set_disks-lookup ds (update j (λ o. record (or_new_runner j o) { disk = some d }) m) u.1,
    lookup-update j k (λ o. record (or_new_runner j o) { disk = some d }) m,
    u.0,
  )

  -- The runner at a name: what was known of it before, with exactly the instance and the disk that
  -- were observed; a name without any of the three has no runner.
  abbrev pub view_of : Option Runner → Option Instance → Option Disk → Option Runner
  view_of none none none = none
  view_of o i d = some (record (or_new_runner k o) { instance_of = i; disk = d })

  view_of_steps :
      (o : Option Runner) (i : Option Instance) (d : Option Disk)
      → with_disk d (with_instance i (cleared o)) ≡ view_of o i d
  view_of_steps none none none = refl
  view_of_steps none none (some d) = refl
  view_of_steps none (some i) none = refl
  view_of_steps none (some i) (some d) = refl
  view_of_steps (some r) none none = refl
  view_of_steps (some r) none (some d) = refl
  view_of_steps (some r) (some i) none = refl
  view_of_steps (some r) (some i) (some d) = refl

  observed-lookup :
      (is : Map Instance) (ds : Map Disk) (m : Map Runner)
      → Unique is
      → Unique ds
      → lookup k (observed is ds m) ≡ view_of (lookup k m) (lookup k is) (lookup k ds)
  unfolding observed
  observed-lookup is ds m ui ud =
      rw
        (
          set_disks-lookup ds (set_instances is (clear_resources m)) ud,
          set_instances-lookup is (clear_resources m) ui,
          clear_resources-lookup m,
        )
        (view_of_steps (lookup k m) (lookup k is) (lookup k ds))

-- If Oxide lists the instances and then the disks, the observation succeeds, and every runner of the
-- view then has the instance and the disk that the listings show under its name, if the name has the
-- scaler's prefix, and none otherwise. Whether it is busy and its teardown are as before, and a name
-- has a runner exactly if it had one before or one of the listings shows it.
pub observe_runners_lem :
    (w : World) (s : Scaler) (m : Map Runner) (l : Log) (is : List Instance) (ds : List Disk)
    → w.instance_list l s.instance_config.project ≡ ok is
    → w.disk_list (instances_listed s.instance_config.project (ok is) ∷ l) s.instance_config.project
      ≡ ok ds
    → (m' : Map Runner) × ((observe_runners w s m l).0 ≡ ok m')
      × ((k : String)
          → lookup k m'
            ≡ view_of k
                (lookup k m)
                (owned_in (name_prefix w s) (λ i. i.name) k is)
                (owned_in (name_prefix w s) (λ d. d.name) k ds))
unfolding observe_runners
observe_runners_lem w s m l is ds listed disks = (
  observed owned_is owned_ds m,
  rw (listed, disks),
  λ k.
      observed-lookup k owned_is owned_ds m (owned_by_name-Unique prefix (λ i. i.name) is [] tt)
        (owned_by_name-Unique prefix (λ d. d.name) ds [] tt)
      ∙ rw (
        owned_by_name_lem prefix (λ i. i.name) k is,
        owned_by_name_lem prefix (λ d. d.name) k ds,
      ),
)
  where
    prefix : String
    prefix = name_prefix w s

    owned_is : Map Instance
    owned_is = owned_by_name prefix (λ i. i.name) is []

    owned_ds : Map Disk
    owned_ds = owned_by_name prefix (λ d. d.name) ds []
