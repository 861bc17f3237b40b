-- ===== src/ScaleSet/Labels.antt =====
-- The comparison of labels.
use mathlib.Core.List.Permᴰ
use mathlib.Core.List.{Permᴰ}
use mathlib.Core.Logic.{∥∥₁_elim}
use mathlib.Core.Bool.{Bool-set}
use oxide_gha_runner_scale_s.Prelude.{
  String, true, List, [], ◌∷◌, Perm, ◌≡◌, ◌↔◌, refl, sym, arith, subst, str_eq_iff, str_leb,
  str_leb_total, str_leb_trans, str_leb_antisym, sort, sort-perm, sort_unique,
}
use oxide_gha_runner_scale_s.ScaleSet.{Label, label_names, equal_texts, same_label_names}

equal_texts_iff : (xs ys : List String) → (equal_texts xs ys ≡ true) ↔ (xs ≡ ys)
unfolding equal_texts
equal_texts_iff [] [] = (λ h. refl, λ h. refl)
equal_texts_iff [] (y ∷ ys) = (λ h. ground arith, λ h. cc)
equal_texts_iff (x ∷ xs) [] = (λ h. ground arith, λ h. cc)
equal_texts_iff (x ∷ xs) (y ∷ ys) = ground (arith, str_eq_iff x y, equal_texts_iff xs ys)

-- Two lists of labels count as the same exactly if their names, each as often as it occurs, are the
-- same up to their order.
pub same_label_names_iff :
    (a b : List Label) → (same_label_names a b ≡ true) ↔ Perm (label_names a) (label_names b)
unfolding same_label_names
same_label_names_iff a b =
    let sorted = equal_texts_iff (sort str_leb (label_names a)) (sort str_leb (label_names b)) in
    (
      λ h.
          ∣ Permᴰ.trans (Permᴰ.symm (sort-perm str_leb (label_names a))) (
            subst (λ xs. Permᴰ xs (label_names b)) (sym (sorted.0 h))
              (sort-perm str_leb (label_names b))) ∣₁,
      λ p.
          ∥∥₁_elim p (Bool-set _ _)
            (λ d. sorted.1 (sort_unique str_leb str_leb_total str_leb_trans str_leb_antisym d)),
    )
