-- ===== src/ScaleSet.antt =====
-- scaleset.go: the runner scale set is adopted, its labels brought up to date, or created.
pub mod Labels
pub mod Ensure
use oxide_gha_runner_scale_s.Prelude.{
  ℕ, String, Bool, true, false, not, ◌||◌, ◌&&◌, Option, none, some, List, [], ◌∷◌, map, ℤ, pos,
  str_eq, str_leb, sort, if◌then◌else◌,
}

-- A label of the GitHub client; only its name is read.
pub record Label : Type 0 where
  pub name : String

-- What the source reads of `scaleset.RunnerScaleSet`, `scaleset.RunnerGroup`.
pub record RunnerScaleSet : Type 0 where
  pub name : String
  pub id : ℤ
  pub labels : List Label

pub record RunnerGroup : Type 0 where
  pub name : String
  pub id : ℤ

-- What `ensureScaleSet` reads of the configuration: `labels` is `RunnerLabels()`.
pub record ScaleSetSettings : Type 0 where
  pub name : String
  pub runner_group : String
  pub labels : List Label

-- An answer of the GitHub client, or its error.
pub data Answer (A : Type 0) : Type 0 where
  answered : A → Answer A
  refused : String → Answer A

-- The client of GitHub, and `scaleset.DefaultRunnerGroup`.
pub record GithubClient : Type 0 where
  pub default_runner_group : String
  pub get_runner_group_by_name : String → Answer RunnerGroup
  pub get_runner_scale_set : ℤ → String → Answer (Option RunnerScaleSet)
  pub update_runner_scale_set : ℤ → List Label → Answer RunnerScaleSet
  pub create_runner_scale_set : String → ℤ → List Label → Answer RunnerScaleSet

abbrev pub default_runner_group_id : ℤ
default_runner_group_id = pos 1

-- The calls that change something at GitHub.
pub data Change : Type 0 where
  labels_updated : ℤ → List Label → Change
  scale_set_created : String → ℤ → List Label → Change

pub data EnsureError : Type 0 where
  resolving_runner_group checking_existence updating_labels creating : String → EnsureError

pub data Ensured : Type 0 where
  ensured : RunnerScaleSet → Ensured
  not_ensured : EnsureError → Ensured

unfoldable pub label_names : List Label → List String
label_names = map (λ x. x.name)

-- `slices.Equal` on texts.
unfoldable pub equal_texts : List String → List String → Bool
equal_texts [] [] = true
equal_texts [] (y ∷ ys) = false
equal_texts (x ∷ xs) [] = false
equal_texts (x ∷ xs) (y ∷ ys) = str_eq x y && equal_texts xs ys

unfoldable pub same_label_names : List Label → List Label → Bool
unfolding label_names equal_texts sort str_leb
same_label_names a b = equal_texts (sort str_leb (label_names a)) (sort str_leb (label_names b))

module _ (client : GithubClient) (settings : ScaleSetSettings) where
  abbrev pub or_error : (String → EnsureError) → Answer RunnerScaleSet → Ensured
  or_error wrap (answered x) = ensured x
  or_error wrap (refused text) = not_ensured (wrap text)

  unfoldable pub adopt : RunnerScaleSet → Ensured × List Change
  unfolding same_label_names
  adopt existing =
      if same_label_names settings.labels existing.labels then (ensured existing, []) else (
        or_error updating_labels (client.update_runner_scale_set existing.id settings.labels),
        labels_updated existing.id settings.labels ∷ [],
      )

  unfoldable pub create : ℤ → Ensured × List Change
  create group_id = (
    or_error creating (client.create_runner_scale_set settings.name group_id settings.labels),
    scale_set_created settings.name group_id settings.labels ∷ [],
  )

  unfoldable pub with_group : ℤ → Ensured × List Change
  unfolding adopt create
  with_group group_id = elim (client.get_runner_scale_set group_id settings.name) [
    | refused text ↦ (not_ensured (checking_existence text), [])
    | answered found ↦ elim found [ none ↦ create group_id | some existing ↦ adopt existing ]
  ]

  -- The ID of the runner group.
  unfoldable pub runner_group_id : Answer ℤ
  runner_group_id =
      if str_eq settings.runner_group "" || str_eq settings.runner_group client.default_runner_group
      then answered default_runner_group_id
      else elim (client.get_runner_group_by_name settings.runner_group) [
        | refused text ↦ refused text
        | answered group ↦ answered group.id
      ]

  unfoldable pub ensure_scale_set : Ensured × List Change
  unfolding with_group runner_group_id
  ensure_scale_set = elim runner_group_id [
    | refused text ↦ (not_ensured (resolving_runner_group text), [])
    | answered group_id ↦ with_group group_id
  ]
