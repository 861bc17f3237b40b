-- ===== src/AppConfig/RunnerLabels.antt =====
-- The labels that GitHub gets.
use oxide_gha_runner_scale_s.Prelude.{
  String, List, [], ◌∷◌, map, All, ◌≡◌, ◌≢◌, refl, sym, ◌∙◌, ap, subst, arith, str_eq_iff, inl, inr,
}
use oxide_gha_runner_scale_s.GoStrings.{trim_space}
use oxide_gha_runner_scale_s.AppConfig.{ScaleSet, Outside, runner_labels}
use oxide_gha_runner_scale_s.AppConfig.Labels.{Checked-cases, Apart, validate_labels_iff}
use oxide_gha_runner_scale_s.AppConfig.Idempotent.{map_trim_idem, Apart-again}
use oxide_gha_runner_scale_s.AppConfig.Validate.{
  accepted, validate_labels, validate_instance, validate_scale_set,
}

-- What the accepted scale set says of its name and labels.
validate_scale_set-labels :
    (o : Outside) (s s' : ScaleSet)
    → validate_scale_set o s ≡ accepted s'
    → (s'.name ≡ trim_space s.name)
      × (s'.name ≢ "")
      × (validate_labels o [] 0 s.labels ≡ accepted s'.labels)
unfolding validate_scale_set
validate_scale_set-labels o s s' h = elim (Checked-cases (validate_labels o [] 0 s.labels)) [
  | inl (e, k) ↦ absurd (ground arith)
  | inr (labels, k) ↦ elim (Checked-cases (validate_instance s.instance_of)) [
    | inl (e, j) ↦ absurd (ground arith)
    | inr (i, j) ↦ (ground arith, ground (arith, str_eq_iff (trim_space s.name) ""), ground arith)
  ]
]

-- The labels that GitHub gets for labels of the configuration.
abbrev pub configured : String → List String → List String
configured name [] = name ∷ []
configured name (label ∷ labels) = label ∷ labels

runner_labels-configured :
    (s : ScaleSet) (texts : List String)
    → s.labels ≡ map trim_space texts
    → runner_labels s ≡ configured s.name (map trim_space texts)
unfolding runner_labels
runner_labels-configured s [] h = rw (runner_labels, h) refl
runner_labels-configured s (text ∷ texts) h = rw (runner_labels, h) (map_trim_idem (text ∷ texts))

All-kept :
    (texts : List String)
    → All (λ u. trim_space u ≢ "") texts
    → All (λ u. u ≢ "") (map trim_space texts)
All-kept [] h = tt
All-kept (text ∷ texts) h = (h.0, All-kept texts h.1)

-- What the configured labels are like.
abbrev AreUsable : Outside → List String → Type 0
AreUsable o labels = (labels ≢ []) × All (λ u. u ≢ "") labels × Apart o labels

configured-AreUsable :
    (o : Outside) (name : String) (texts : List String)
    → name ≢ ""
    → All (λ u. trim_space u ≢ "") texts
    → Apart o texts
    → AreUsable o (configured name (map trim_space texts))
configured-AreUsable o name [] named kept apart = ((λ h. cc), (named, tt), (tt, tt))
configured-AreUsable o name (text ∷ texts) named kept apart =
    ((λ h. cc), All-kept (text ∷ texts) kept, Apart-again o (text ∷ texts) apart)

-- For an accepted scale set GitHub gets exactly the trimmed labels of the configuration, in order,
-- or the trimmed name where there are none; there is at least one, none is empty, and no two are
-- equal but for case.
pub runner_labels_lem :
    (o : Outside) (s s' : ScaleSet)
    → validate_scale_set o s ≡ accepted s'
    → (runner_labels s' ≡ configured (trim_space s.name) (map trim_space s.labels))
      × (runner_labels s' ≢ [])
      × All (λ u. u ≢ "") (runner_labels s')
      × Apart o (runner_labels s')
unfolding runner_labels
runner_labels_lem o s s' h =
    let (same_name, named, checked) = validate_scale_set-labels o s s' h in
    let (labels, kept, apart) = (validate_labels_iff o s.labels s'.labels).0 checked in
    let shown = runner_labels-configured s' s.labels labels in
    let usable = configured-AreUsable o s'.name s.labels named kept apart in
    let (some_label, none_empty, all_apart) = subst (AreUsable o) (sym shown) usable in
    (
      shown ∙ ap (λ name. configured name (map trim_space s.labels)) same_name,
      some_label,
      none_empty,
      all_apart,
    )
