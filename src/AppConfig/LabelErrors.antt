-- ===== src/AppConfig/LabelErrors.antt =====
-- Which labels the loop reports.
use oxide_gha_runner_scale_s.Prelude.{
  ℕ, suc, String, some, List, [], ◌∷◌, ◌≡◌, ◌≢◌, ◌<◌, ◌+◌, subst, arith, str_eq, str_eq_iff, inl,
  inr, Bool-cases, Option-cases, get_elem?,
}
use oxide_gha_runner_scale_s.GoMap.{Map, lookup, insert, lookup-insert}
use oxide_gha_runner_scale_s.GoStrings.{trim_space}
use oxide_gha_runner_scale_s.AppConfig.{Outside}
use oxide_gha_runner_scale_s.AppConfig.Labels.{Checked-cases, label_key}
use oxide_gha_runner_scale_s.AppConfig.Validate.{
  refused, Problem, validate_labels, label_required, label_duplicates,
}

module _ (o : Outside) (all : List String) where
  -- The text at an index.
  abbrev At : ℕ → String → Type 0
  At n text = get_elem? all n ≡ some text

  -- What is seen stands at its index, before the one that the loop is at.
  abbrev IsSound : Map ℕ → ℕ → Type 0
  IsSound seen i =
      (k : String) (j : ℕ)
      → lookup k seen ≡ some j
      → (j < i) × ((text : String) × At j text × (label_key o text ≡ k))

  -- The loop stands at index i, with these texts left.
  abbrev IsRest : ℕ → List String → Type 0
  IsRest i texts = (n : ℕ) → get_elem? all (i + n) ≡ get_elem? texts n

  -- What a report about the labels means.
  abbrev pub Means : Problem → Type 0
  Means (label_required i) = (text : String) × At i text × (trim_space text ≡ "")
  Means (label_duplicates i j) =
      (text : String) × (earlier : String) × (j < i)
      × At i text
      × At j earlier
      × (trim_space text ≢ "")
      × (label_key o earlier ≡ label_key o text)
  Means _ = ⊥

  insert-IsSound :
      (seen : Map ℕ) (i : ℕ) (text : String)
      → At i text
      → IsSound seen i
      → IsSound (insert (label_key o text) i seen) (suc i)
  insert-IsSound seen i text here sound k j h =
      let law = lookup-insert (label_key o text) k i seen in
      elim (Bool-cases (str_eq (label_key o text) k)) [
        | inl e ↦
            let same : i ≡ j = ground arith in
            (omega arith, (text, (rw (← same) here), (str_eq_iff (label_key o text) k).0 e))
        | inr e ↦ (let (before, known) = sound k j (ground arith) in (omega arith, known))
      ]

  IsRest-step :
      (i : ℕ) (text : String) (texts : List String) → IsRest i (text ∷ texts) → IsRest (suc i) texts
  IsRest-step i text texts rest n =
      let e : suc i + n ≡ i + suc n = omega arith in rw e (rest (suc n))

  refused-Means :
      (seen : Map ℕ) (i : ℕ) (texts : List String) (e : Problem)
      → IsSound seen i
      → IsRest i texts
      → validate_labels o seen i texts ≡ refused e
      → Means e
  unfolding validate_labels
  refused-Means seen i [] e sound rest h = cc
  refused-Means seen i (text ∷ texts) e sound rest h =
      let at : At i text = (let z : i + 0 ≡ i = omega arith in rw (← z) (rest 0)) in
      elim (Bool-cases (str_eq (trim_space text) "")) [
        | inl blank ↦
            let q : label_required i ≡ e = ground arith in
            subst Means q (text, at, (str_eq_iff (trim_space text) "").0 blank)
        | inr kept ↦ elim (Option-cases (lookup (label_key o text) seen)) [
          | inr (j, old) ↦
              let q : label_duplicates i j ≡ e = ground arith in
              let (before, (earlier, there, same)) = sound (label_key o text) j old in
              let named = str_eq_iff (trim_space text) "" in
              subst Means q (text, earlier, before, at, there, (λ k. ground arith), same)
          | inl new ↦
              elim (Checked-cases
                (validate_labels o (insert (label_key o text) i seen) (suc i) texts)) [
                  | inr (labels, k) ↦ absurd (ground arith)
                  | inl (e', k) ↦
                      let q : e' ≡ e = ground arith in
                      subst Means q (
                        refused-Means (insert (label_key o text) i seen) (suc i) texts e'
                          (insert-IsSound seen i text at sound) (IsRest-step i text texts rest) k)
                ]
        ]
      ]

  -- A report about the labels tells the truth: a label that is reported as missing is blank at its
  -- index, and one that is reported as a duplicate of another is not blank and equals it but for
  -- surrounding space and case, and the other stands before it.
  pub validate_labels-refused : (e : Problem) → validate_labels o [] 0 all ≡ refused e → Means e
  validate_labels-refused e h =
      refused-Means [] 0 all e (λ k j q. unfold lookup in absurd (ground arith))
        (λ n. (let z : 0 + n ≡ n = omega arith in rw z)) h
