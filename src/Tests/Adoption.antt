-- ===== src/Tests/Adoption.antt =====
-- The adoption of a scale set, at concrete inputs.
use oxide_gha_runner_scale_s.Prelude.{
  String, true, some, List, [], ◌∷◌, Perm, ◌≡◌, ◌⊎◌, ◌↔◌, refl, pos, map,
}
use oxide_gha_runner_scale_s.ScaleSet.{
  Label, RunnerScaleSet, GithubClient, ScaleSetSettings, answered, ensured, labels_updated,
  label_names, same_label_names, ensure_scale_set,
}
use oxide_gha_runner_scale_s.ScaleSet.Labels.{same_label_names_iff}
use oxide_gha_runner_scale_s.ScaleSet.Ensure.{
  LacksGroup, LacksAnswer, LeavesAlone, Relabels, Creates, ensure_scale_set_lem,
}

abbrev pub labels : List String → List Label
labels = map (λ text. record { name = text })

abbrev pub known : RunnerScaleSet
known = record { name = "ci"; id = pos 7; labels = labels ("b" ∷ "a" ∷ []) }

-- GitHub knows one scale set, and grants everything.
abbrev pub github : GithubClient
github = record {
  default_runner_group = "default";
  get_runner_group_by_name = λ name. answered (record { name = name; id = pos 2 });
  get_runner_scale_set = λ group name. answered (some known);
  update_runner_scale_set = λ id ls. answered (record known { labels = ls });
  create_runner_scale_set =
      λ name group ls. answered (record { name = name; id = pos 8; labels = ls });
}

abbrev settings : ScaleSetSettings
settings = record { name = "ci"; runner_group = ""; labels = labels ("a" ∷ "b" ∷ []) }

adopts : ensure_scale_set github settings ≡ (ensured known, [])
unfolding ensure_scale_set
adopts = refl

relabels :
    (ensure_scale_set github (record settings { labels = labels ("c" ∷ []) })).1
    ≡ labels_updated (pos 7) (labels ("c" ∷ [])) ∷ []
unfolding ensure_scale_set
relabels = refl

same_label_names_iff_example :
    (same_label_names (labels ("a" ∷ "b" ∷ [])) known.labels ≡ true)
    ↔ Perm (label_names (labels ("a" ∷ "b" ∷ []))) (label_names known.labels)
same_label_names_iff_example = same_label_names_iff (labels ("a" ∷ "b" ∷ [])) known.labels

ensure_scale_set_lem_example :
    let a = ensure_scale_set github settings in
    LacksGroup github settings a
    ⊎ (LacksAnswer github settings a
        ⊎ (LeavesAlone github settings a
            ⊎ (Relabels github settings a ⊎ Creates github settings a)))
ensure_scale_set_lem_example = ensure_scale_set_lem github settings
