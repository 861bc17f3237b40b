-- ===== src/ScaleSet/Ensure.antt =====
-- What `ensureScaleSet` changes at GitHub.
use oxide_gha_runner_scale_s.Prelude.{
  pos, ◌≢◌, str_eq, str_eq_iff, String, none, some, List, [], ◌∷◌, Perm, ◌≡◌, ◌⊎◌, inl, inr, refl,
  subst, ◌∙◌, ℤ, Bool-cases, Option-cases,
}
use oxide_gha_runner_scale_s.ScaleSet.{
  RunnerScaleSet, GithubClient, ScaleSetSettings, Answer, answered, refused, Change, labels_updated,
  scale_set_created, EnsureError, Ensured, ensured, not_ensured, label_names, same_label_names,
  or_error, RunnerGroup, resolving_runner_group, checking_existence, updating_labels, creating,
  adopt, create, with_group, runner_group_id, ensure_scale_set,
}
use oxide_gha_runner_scale_s.ScaleSet.Labels.{same_label_names_iff}

Answer-cases :
    {A : Type 0} (a : Answer A)
    → ((text : String) × (a ≡ refused text)) ⊎ ((x : A) × (a ≡ answered x))
Answer-cases (refused text) = inl (text, refl)
Answer-cases (answered x) = inr (x, refl)

-- The default group, which is not asked for.
abbrev pub IsDefault : GithubClient → ScaleSetSettings → Type 0
IsDefault client settings =
    (settings.runner_group ≡ "") ⊎ (settings.runner_group ≡ client.default_runner_group)

abbrev pub IsNamed : GithubClient → ScaleSetSettings → Type 0
IsNamed client settings =
    (settings.runner_group ≢ "") × (settings.runner_group ≢ client.default_runner_group)

module _ (client : GithubClient) (settings : ScaleSetSettings) where
  -- The ID of the wanted group: 1 for the default group, and else what GitHub answers for its name.
  abbrev pub IsGroup : ℤ → Type 0
  IsGroup group_id =
      (IsDefault client settings × (group_id ≡ pos 1))
      ⊎ (IsNamed client settings
          × (g : RunnerGroup) × (client.get_runner_group_by_name settings.runner_group ≡ answered g)
          × (group_id ≡ g.id))

  -- A request has this answer, and its scale set or its error comes back.
  abbrev pub Returns : (String → EnsureError) → Answer RunnerScaleSet → Ensured → Type 0
  Returns wrap a r =
      ((x : RunnerScaleSet) × (a ≡ answered x) × (r ≡ ensured x))
      ⊎ ((text : String) × (a ≡ refused text) × (r ≡ not_ensured (wrap text)))

  -- GitHub refuses to look the group up.
  abbrev pub LacksGroup : Ensured × List Change → Type 0
  LacksGroup (r, changes) =
      (text : String) × IsNamed client settings
      × (client.get_runner_group_by_name settings.runner_group ≡ refused text)
      × (r ≡ not_ensured (resolving_runner_group text))
      × (changes ≡ [])

  -- GitHub refuses to look the scale set up.
  abbrev pub LacksAnswer : Ensured × List Change → Type 0
  LacksAnswer (r, changes) =
      (group_id : ℤ) × (text : String) × IsGroup group_id
      × (client.get_runner_scale_set group_id settings.name ≡ refused text)
      × (r ≡ not_ensured (checking_existence text))
      × (changes ≡ [])

  -- The scale set that is there has the wanted labels, and comes back.
  abbrev pub LeavesAlone : Ensured × List Change → Type 0
  LeavesAlone (r, changes) =
      (group_id : ℤ) × (x : RunnerScaleSet) × IsGroup group_id
      × (client.get_runner_scale_set group_id settings.name ≡ answered (some x))
      × Perm (label_names settings.labels) (label_names x.labels)
      × (r ≡ ensured x)
      × (changes ≡ [])

  -- The scale set that is there has other labels, which are replaced; the update decides the result.
  abbrev pub Relabels : Ensured × List Change → Type 0
  Relabels (r, changes) =
      (group_id : ℤ) × (x : RunnerScaleSet) × IsGroup group_id
      × (client.get_runner_scale_set group_id settings.name ≡ answered (some x))
      × (Perm (label_names settings.labels) (label_names x.labels) → ⊥)
      × Returns updating_labels (client.update_runner_scale_set x.id settings.labels) r
      × (changes ≡ labels_updated x.id settings.labels ∷ [])

  -- There is no scale set, and one is created; the creation decides the result.
  abbrev pub Creates : Ensured × List Change → Type 0
  Creates (r, changes) =
      (group_id : ℤ) × IsGroup group_id
      × (client.get_runner_scale_set group_id settings.name ≡ answered none)
      × Returns creating (client.create_runner_scale_set settings.name group_id settings.labels) r
      × (changes ≡ scale_set_created settings.name group_id settings.labels ∷ [])

  abbrev IsExplained : Ensured × List Change → Type 0
  IsExplained a = LacksGroup a ⊎ (LacksAnswer a ⊎ (LeavesAlone a ⊎ (Relabels a ⊎ Creates a)))

  or_error-Returns :
      (wrap : String → EnsureError) (a : Answer RunnerScaleSet)
      → Returns wrap a (or_error client settings wrap a)
  or_error-Returns wrap (answered x) = inl (x, refl, refl)
  or_error-Returns wrap (refused text) = inr (text, refl, refl)

  adopt-IsExplained :
      (group_id : ℤ) (x : RunnerScaleSet)
      → IsGroup group_id
      → client.get_runner_scale_set group_id settings.name ≡ answered (some x)
      → IsExplained (adopt client settings x)
  unfolding adopt
  adopt-IsExplained group_id x group there =
      let same = same_label_names_iff settings.labels x.labels in
      elim (Bool-cases (same_label_names settings.labels x.labels)) [
        | inl h ↦ rw h (inr (inr (inl (group_id, x, group, there, same.0 h, refl, refl))))
        | inr h ↦ rw h (
            inr (
              inr (
                inr (
                  inl (
                    group_id,
                    x,
                    group,
                    there,
                    (λ p. cc (h, same.1 p)),
                    or_error-Returns updating_labels _,
                    refl,
                  )))))
      ]

  with_group-IsExplained :
      (group_id : ℤ) → IsGroup group_id → IsExplained (with_group client settings group_id)
  unfolding with_group create
  with_group-IsExplained group_id group =
      elim (Answer-cases (client.get_runner_scale_set group_id settings.name)) [
        | inl (text, h) ↦ rw (with_group, h) (inr (inl (group_id, text, group, h, refl, refl)))
        | inr (found, h) ↦ elim (Option-cases found) [
          | inl k ↦
              rw (with_group, h, k)
                (inr (
                  inr (
                    inr (
                      inr (
                        group_id,
                        group,
                        h ∙ (λ i. answered (k i)),
                        or_error-Returns creating _,
                        refl,
                      )))))
          | inr (x, k) ↦
              rw (with_group, h, k) (adopt-IsExplained group_id x group (h ∙ (λ i. answered (k i))))
        ]
      ]

  -- What comes of looking the group up.
  abbrev IsAnswer : Answer ℤ → Type 0
  IsAnswer (answered group_id) = IsGroup group_id
  IsAnswer (refused text) =
      IsNamed client settings
      × (client.get_runner_group_by_name settings.runner_group ≡ refused text)

  runner_group_id-IsAnswer : IsAnswer (runner_group_id client settings)
  unfolding runner_group_id
  runner_group_id-IsAnswer =
      let unnamed = str_eq_iff settings.runner_group "" in
      let default = str_eq_iff settings.runner_group client.default_runner_group in
      elim (Bool-cases (str_eq settings.runner_group "")) [
        | inl h ↦ rw (runner_group_id, h) (inl (inl (unnamed.0 h), refl))
        | inr h ↦ elim (Bool-cases (str_eq settings.runner_group client.default_runner_group)) [
          | inl k ↦ rw (runner_group_id, h, k) (inl (inr (default.0 k), refl))
          | inr k ↦
              let named : IsNamed client settings =
                ((λ e. cc (h, unnamed.1 e)), (λ e. cc (k, default.1 e))) in
              elim (Answer-cases (client.get_runner_group_by_name settings.runner_group)) [
                | inl (text, a) ↦ rw (runner_group_id, h, k, a) (named, a)
                | inr (g, a) ↦ rw (runner_group_id, h, k, a) (inr (named, g, a, refl))
              ]
        ]
      ]

  -- Making sure of the scale set resolves the group, looks the scale set up in it, and then changes at
  -- most one thing at GitHub: it creates a scale set exactly where GitHub has none of that name and
  -- group, replaces the labels exactly where the label names differ otherwise than in order, and
  -- returns a scale set that has the wanted ones as it is. What comes back is the answer or the error
  -- of the request that was the last.
  pub ensure_scale_set_lem : IsExplained (ensure_scale_set client settings)
  unfolding ensure_scale_set
  ensure_scale_set_lem =
      let group = runner_group_id-IsAnswer in
      elim (Answer-cases (runner_group_id client settings)) [
        | inl (text, h) ↦
            let (named, lacks) = subst IsAnswer h group in
            rw (ensure_scale_set, h) (inl (text, named, lacks, refl, refl))
        | inr (group_id, h) ↦
            let goes_on : with_group client settings group_id ≡ ensure_scale_set client settings =
              rw (ensure_scale_set, h) refl in
            subst IsExplained goes_on (with_group-IsExplained group_id (subst IsAnswer h group))
      ]
