-- ===== src/AppConfig/Labels.antt =====
-- The labels of a scale set: what the loop over them accepts, and what it reports.
use oxide_gha_runner_scale_s.Prelude.{
  ℕ, suc, String, none, List, [], ◌∷◌, map, ◌≡◌, ◌≢◌, ◌↔◌, ◌⊎◌, refl, ◌∙◌, ap, arith, str_eq_iff,
  inl, inr, All,
}
use oxide_gha_runner_scale_s.GoMap.{Map, lookup, insert, lookup-insert}
use oxide_gha_runner_scale_s.GoStrings.{trim_space, to_lower}
use oxide_gha_runner_scale_s.AppConfig.{Outside}
use oxide_gha_runner_scale_s.AppConfig.Validate.{
  Checked, accepted, refused, Problem, validate_labels,
}

pub Checked-cases {ℓ} :
    {A : Type ℓ} (m : Checked A) → ((e : Problem) × (m ≡ refused e)) ⊎ ((a : A) × (m ≡ accepted a))
Checked-cases (refused e) = inl (e, refl)
Checked-cases (accepted a) = inr (a, refl)

module _ (o : Outside) where
  -- The key under which a label is looked up.
  abbrev pub label_key : String → String
  label_key text = to_lower o.lower_beyond (trim_space text)

  -- What the loop asks of its first label.
  abbrev pub AcceptsFirst : Map ℕ → ℕ → String → List String → List String → Type 0
  AcceptsFirst seen i text texts labels =
      (rest : List String) × (labels ≡ trim_space text ∷ rest)
      × (trim_space text ≢ "")
      × (lookup (label_key text) seen ≡ none)
      × (validate_labels o (insert (label_key text) i seen) (suc i) texts ≡ accepted rest)

  pub validate_labels-cons :
      (seen : Map ℕ) (i : ℕ) (text : String) (texts labels : List String)
      → (validate_labels o seen i (text ∷ texts) ≡ accepted labels)
        ↔ AcceptsFirst seen i text texts labels
  unfolding validate_labels
  validate_labels-cons seen i text texts labels =
      let named = str_eq_iff (trim_space text) "" in
      (
        λ h.
            elim (Checked-cases
              (validate_labels o (insert (label_key text) i seen) (suc i) texts)) [
                | inl (e, k) ↦ ground arith
                | inr (rest, k) ↦ (rest, ground arith, ground arith, ground arith, k)
              ],
        λ (rest, same, kept, new, ok). ground arith,
      )

  -- No two of the texts have the same key.
  abbrev pub Apart : List String → Type 0
  Apart [] = Unit
  Apart (text ∷ texts) = All (λ u. label_key text ≢ label_key u) texts × Apart texts

  -- No text has a key that was seen.
  abbrev Unseen : Map ℕ → List String → Type 0
  Unseen seen texts = All (λ u. lookup (label_key u) seen ≡ none) texts

  Unseen-insert :
      (seen : Map ℕ) (k : String) (i : ℕ) (texts : List String)
      → Unseen (insert k i seen) texts ↔ (All (λ u. k ≢ label_key u) texts × Unseen seen texts)
  Unseen-insert seen k i [] = ((λ h. (tt, tt)), (λ h. tt))
  Unseen-insert seen k i (text ∷ texts) =
      let law = lookup-insert k (label_key text) i seen in
      let same = str_eq_iff k (label_key text) in
      let rest = Unseen-insert seen k i texts in
      (
        λ h. (let more = rest.0 h.1 in ((ground arith, more.0), (ground arith, more.1))),
        λ h. (ground arith, rest.1 (h.0.1, h.1.1)),
      )

  accepted_iff :
      (seen : Map ℕ) (i : ℕ) (texts labels : List String)
      → (validate_labels o seen i texts ≡ accepted labels) ↔ (
          (labels ≡ map trim_space texts)
          × All (λ u. trim_space u ≢ "") texts
          × Unseen seen texts
          × Apart texts)
  unfolding validate_labels
  accepted_iff seen i [] labels = ground arith
  accepted_iff seen i (text ∷ texts) labels =
      let first = validate_labels-cons seen i text texts labels in
      let split = Unseen-insert seen (label_key text) i texts in
      (
        λ h.
            (let (rest, same, kept, new, ok) = first.0 h in
              let facts = (accepted_iff (insert (label_key text) i seen) (suc i) texts rest).0 ok in
              let parts = split.0 facts.2 in
              (
                same ∙ ap (λ ls. trim_space text ∷ ls) facts.0,
                (kept, facts.1),
                (new, parts.1),
                (parts.0, facts.3),
              )),
        λ (same, kept, unseen, apart). first.1 (
          map trim_space texts,
          same,
          kept.0,
          unseen.0,
          (accepted_iff (insert (label_key text) i seen) (suc i) texts (map trim_space texts)).1
              (refl, kept.1, split.1 (apart.0, unseen.1), apart.1),
        ),
      )

  no_keys : (texts : List String) → Unseen [] texts
  unfolding lookup
  no_keys [] = tt
  no_keys (text ∷ texts) = (refl, no_keys texts)

  -- The labels of a scale set are accepted exactly if none is blank and no two are equal but for
  -- surrounding space and case; they are then trimmed, and kept in order.
  pub validate_labels_iff :
      (texts labels : List String)
      → (validate_labels o [] 0 texts ≡ accepted labels)
        ↔ ((labels ≡ map trim_space texts) × All (λ u. trim_space u ≢ "") texts × Apart texts)
  validate_labels_iff texts labels =
      let general = accepted_iff [] 0 texts labels in
      (
        λ h. (let facts = general.0 h in (facts.0, facts.1, facts.3)),
        λ (same, kept, apart). general.1 (same, kept, no_keys texts, apart),
      )
