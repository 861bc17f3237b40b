-- ===== src/GoStrings/Trim.antt =====
-- A trimmed text starts and ends with no character that is trimmed, and trimming it again changes
-- nothing.
use Prim.Native.Char.{Char}
use Prim.Native.String.{[], ◌∷◌}
use oxide_gha_runner_scale_s.Prelude.{String, Bool, false, ◌≡◌, refl, ◌∙◌, ap, inl, inr, Bool-cases}
use oxide_gha_runner_scale_s.GoStrings.{
  is_space, trim_left, trim_before, trim_right, trim, trim_space,
}

module _ (p : Char → Bool) where
  -- The text is empty or starts with a character that is kept.
  abbrev StartsKept : String → Type 0
  StartsKept [] = Unit
  StartsKept (c ∷ s) = p c ≡ false

  trim_left-StartsKept : (s : String) → StartsKept (trim_left p s)
  unfolding trim_left
  trim_left-StartsKept [] = tt
  trim_left-StartsKept (c ∷ s) = elim (Bool-cases (p c)) [
    | inl h ↦ rw h (trim_left-StartsKept s)
    | inr h ↦ rw h h
  ]

  trim_left_of_kept : (s : String) → StartsKept s → trim_left p s ≡ s
  unfolding trim_left
  trim_left_of_kept [] h = refl
  trim_left_of_kept (c ∷ s) h = rw h

  trim_before-StartsKept : (c : Char) (s : String) → p c ≡ false → StartsKept (trim_before p c s)
  trim_before-StartsKept c [] h = rw h h
  trim_before-StartsKept c (d ∷ s) h = h

  trim_right-StartsKept : (s : String) → StartsKept s → StartsKept (trim_right p s)
  unfolding trim_right
  trim_right-StartsKept [] h = tt
  trim_right-StartsKept (c ∷ s) h = trim_before-StartsKept c (trim_right p s) h

  trim_right-before :
      (c : Char) (s : String)
      → trim_right p s ≡ s
      → trim_right p (trim_before p c s) ≡ trim_before p c s
  unfolding trim_right
  trim_right-before c [] h = elim (Bool-cases (p c)) [ inl k ↦ rw k refl | inr k ↦ rw k (rw k) ]
  trim_right-before c (d ∷ s) h = ap (trim_before p c) h

  trim_right_idem : (s : String) → trim_right p (trim_right p s) ≡ trim_right p s
  unfolding trim_right
  trim_right_idem [] = refl
  trim_right_idem (c ∷ s) = trim_right-before c (trim_right p s) (trim_right_idem s)

  pub trim_idem : (s : String) → trim p (trim p s) ≡ trim p s
  unfolding trim
  trim_idem s =
      ap (trim_right p) (
        trim_left_of_kept (trim_right p (trim_left p s))
          (trim_right-StartsKept (trim_left p s) (trim_left-StartsKept s)))
      ∙ trim_right_idem (trim_left p s)

pub trim_space_idem : (s : String) → trim_space (trim_space s) ≡ trim_space s
unfolding trim_space
trim_space_idem s = trim_idem is_space s
