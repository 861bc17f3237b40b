-- ===== src/Prelude/Sorting.antt =====
-- Insertion sort by a total order: lists with the same entries have one sorted form.
use mathlib.Core.Path.{◌≡◌, refl, sym, ◌∙◌}
use mathlib.Core.Logic.{◌⊎◌, inl, inr}
use mathlib.Core.Bool.{Bool, true, false}
use mathlib.Core.List.{List, [], ◌∷◌, Permᴰ}
use mathlib.Core.List.Permᴰ
use native.Mathlib.Omega.{arith}
use oxide_gha_runner_scale_s.Prelude.Tests.{if◌then◌else◌, Bool-cases}

module _ {ℓ} {A : Type ℓ} (leb : A → A → Bool) where
  unfoldable pub insert_sorted : A → List A → List A
  insert_sorted x [] = x ∷ []
  insert_sorted x (y ∷ ys) = if leb x y then x ∷ y ∷ ys else y ∷ insert_sorted x ys

  unfoldable pub sort : List A → List A
  unfolding insert_sorted
  sort [] = []
  sort (x ∷ xs) = insert_sorted x (sort xs)

  insert_sorted-perm : (x : A) (xs : List A) → Permᴰ (insert_sorted x xs) (x ∷ xs)
  unfolding insert_sorted
  insert_sorted-perm x [] = Permᴰ.refl _
  insert_sorted-perm x (y ∷ ys) = elim (Bool-cases (leb x y)) [
    | inl h ↦ rw h (Permᴰ.refl _)
    | inr h ↦ rw h (Permᴰ.trans (Permᴰ.cons refl (insert_sorted-perm x ys)) (Permᴰ.swap refl refl))
  ]

  pub sort-perm : (xs : List A) → Permᴰ (sort xs) xs
  unfolding sort
  sort-perm [] = Permᴰ.nil
  sort-perm (x ∷ xs) = Permᴰ.trans (insert_sorted-perm x (sort xs)) (Permᴰ.cons refl (sort-perm xs))

  module _ (total : (x y : A) → (leb x y ≡ true) ⊎ (leb y x ≡ true))
      (trans : (x y z : A) → leb x y ≡ true → leb y z ≡ true → leb x z ≡ true)
      (antisym : (x y : A) → leb x y ≡ true → leb y x ≡ true → x ≡ y) where
    first_two :
        (x y : A) (xs : List A)
        → (if leb x y then x ∷ y ∷ xs else y ∷ x ∷ xs)
          ≡ (if leb y x then y ∷ x ∷ xs else x ∷ y ∷ xs)
    first_two x y xs = elim (Bool-cases (leb x y)) [
      | inl h ↦ elim (Bool-cases (leb y x)) [
        | inl k ↦ rw (h, k) (λ i. antisym x y h k i ∷ sym (antisym x y h k) i ∷ xs)
        | inr k ↦ rw (h, k) refl
      ]
      | inr h ↦ elim (total x y) [ inl k ↦ ground arith | inr k ↦ rw (h, k) refl ]
    ]

    insert_sorted_comm :
        (x y : A) (xs : List A)
        → insert_sorted x (insert_sorted y xs) ≡ insert_sorted y (insert_sorted x xs)
    unfolding insert_sorted
    insert_sorted_comm x y [] = first_two x y []
    insert_sorted_comm x y (z ∷ zs) = elim (Bool-cases (leb y z)) [
      | inl h ↦ elim (Bool-cases (leb x z)) [
        | inl k ↦ rw (h, k, h) (first_two x y (z ∷ zs))
        | inr k ↦ let q : leb x y ≡ false = ground (arith, trans x y z) in rw (h, k, q, h) refl
      ]
      | inr h ↦ elim (Bool-cases (leb x z)) [
        | inl k ↦ let q : leb y x ≡ false = ground (arith, trans y x z) in rw (h, k, q, h) refl
        | inr k ↦ rw (h, k, h) (λ i. z ∷ insert_sorted_comm x y zs i)
      ]
    ]

    pub sort_unique : {xs ys : List A} → Permᴰ xs ys → sort xs ≡ sort ys
    unfolding sort
    sort_unique Permᴰ.nil = refl
    sort_unique (Permᴰ.cons e h) = λ i. insert_sorted (e i) (sort_unique h i)
    sort_unique (Permᴰ.swap {a} {b} {l = l} e h) =
        insert_sorted_comm a b (sort l) ∙ (λ i. insert_sorted (h i) (insert_sorted (e i) (sort l)))
    sort_unique (Permᴰ.trans h k) = sort_unique h ∙ sort_unique k
