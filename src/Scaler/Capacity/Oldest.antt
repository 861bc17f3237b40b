-- ===== src/Scaler/Capacity/Oldest.antt =====
-- Sorting by age puts the oldest candidates first.
use oxide_gha_runner_scale_s.Prelude.{
  ℕ, zero, suc, String, true, false, ◌≡◌, ◌≤◌, refl, arith, Option, none, some, is_some, List, [],
  ◌∷◌, ◌++◌, length, take, drop, min, All, ap, subst, sym, Perm, length-take, Bool-cases, inl, inr,
}
use mathlib.Core.List.{Permᴰ}
use mathlib.Core.List.Permᴰ
use oxide_gha_runner_scale_s.GoTime.{Time}
use oxide_gha_runner_scale_s.Scaler.Runner.{Runner}
use oxide_gha_runner_scale_s.Scaler.Capacity.{created_of, older, insert_by_age, sort_by_age}

abbrev pub IsKnown : String × Runner → Type 0
IsKnown e = is_some (created_of e.1) ≡ true

abbrev time_of : Option Time → Time
time_of none = 0
time_of (some t) = t

-- An entry is at least as old as another.
abbrev pub IsNoYounger : String × Runner → String × Runner → Type 0
IsNoYounger x y = time_of (created_of x.1) ≤ time_of (created_of y.1)

abbrev IsOrdered : List (String × Runner) → Type 0
IsOrdered [] = Unit
IsOrdered (x ∷ xs) = All (IsNoYounger x) xs × IsOrdered xs

All-insert_by_age :
    (P : String × Runner → Type 0) (x : String × Runner) (xs : List (String × Runner))
    → P x
    → All P xs
    → All P (insert_by_age x xs)
unfolding insert_by_age
All-insert_by_age P x [] px all = (px, tt)
All-insert_by_age P x (y ∷ ys) px (py, all) =
    elim (Bool-cases (older (created_of y.1) (created_of x.1))) [
      | inl h ↦ rw h (py, All-insert_by_age P x ys px all)
      | inr h ↦ rw h (px, (py, all))
    ]

older-IsKnown :
    (x y : String × Runner)
    → IsKnown x
    → IsKnown y
    → older (created_of y.1) (created_of x.1) ≡ true
    → IsNoYounger y x
unfolding older
older-IsKnown x y kx ky h = ground arith

not_older-IsKnown :
    (x y : String × Runner)
    → IsKnown x
    → IsKnown y
    → older (created_of y.1) (created_of x.1) ≡ false
    → IsNoYounger x y
unfolding older
not_older-IsKnown x y kx ky h = ground arith

All-IsNoYounger :
    (x y : String × Runner) (ys : List (String × Runner))
    → IsNoYounger x y
    → All (IsNoYounger y) ys
    → All (IsNoYounger x) ys
All-IsNoYounger x y [] h all = tt
All-IsNoYounger x y (z ∷ zs) h (yz, all) = (omega (arith, h, yz), All-IsNoYounger x y zs h all)

insert_by_age-IsOrdered :
    (x : String × Runner) (xs : List (String × Runner))
    → IsKnown x
    → All IsKnown xs
    → IsOrdered xs
    → IsOrdered (insert_by_age x xs)
unfolding insert_by_age
insert_by_age-IsOrdered x [] kx known sorted = (tt, tt)
insert_by_age-IsOrdered x (y ∷ ys) kx (ky, known) (first, sorted) =
    elim (Bool-cases (older (created_of y.1) (created_of x.1))) [
      | inl h ↦ rw h (
        All-insert_by_age (IsNoYounger y) x ys (older-IsKnown x y kx ky h) first,
        insert_by_age-IsOrdered x ys kx known sorted,
      )
      | inr h ↦
          let before = not_older-IsKnown x y kx ky h in
          rw h ((before, All-IsNoYounger x y ys before first), (first, sorted))
    ]

sort_by_age-IsOrdered :
    (xs : List (String × Runner))
    → All IsKnown xs
    → All IsKnown (sort_by_age xs) × IsOrdered (sort_by_age xs)
unfolding sort_by_age
sort_by_age-IsOrdered [] known = (tt, tt)
sort_by_age-IsOrdered (x ∷ xs) (kx, known) =
    let (known', sorted) = sort_by_age-IsOrdered xs known in
    (
      All-insert_by_age IsKnown x (sort_by_age xs) kx known',
      insert_by_age-IsOrdered x (sort_by_age xs) kx known' sorted,
    )

insert_by_age-perm :
    (x : String × Runner) (xs : List (String × Runner)) → Permᴰ (insert_by_age x xs) (x ∷ xs)
unfolding insert_by_age
insert_by_age-perm x [] = Permᴰ.refl _
insert_by_age-perm x (y ∷ ys) = elim (Bool-cases (older (created_of y.1) (created_of x.1))) [
  | inl h ↦ rw h (Permᴰ.trans (Permᴰ.cons refl (insert_by_age-perm x ys)) (Permᴰ.swap refl refl))
  | inr h ↦ rw h (Permᴰ.refl _)
]

sort_by_age-perm : (xs : List (String × Runner)) → Permᴰ (sort_by_age xs) xs
unfolding sort_by_age
sort_by_age-perm [] = Permᴰ.nil
sort_by_age-perm (x ∷ xs) =
    Permᴰ.trans (insert_by_age-perm x (sort_by_age xs)) (Permᴰ.cons refl (sort_by_age-perm xs))

insert_by_age-length :
    (x : String × Runner) (xs : List (String × Runner))
    → length (insert_by_age x xs) ≡ suc (length xs)
unfolding insert_by_age
insert_by_age-length x [] = refl
insert_by_age-length x (y ∷ ys) = ground (arith, insert_by_age-length x ys)

pub sort_by_age-length : (xs : List (String × Runner)) → length (sort_by_age xs) ≡ length xs
unfolding sort_by_age
sort_by_age-length [] = refl
sort_by_age-length (x ∷ xs) =
    omega (arith, insert_by_age-length x (sort_by_age xs), sort_by_age-length xs)

All-drop :
    (P : String × Runner → Type 0) (n : ℕ) (xs : List (String × Runner))
    → All P xs
    → All P (drop n xs)
All-drop P zero xs all = all
All-drop P (suc n) [] all = tt
All-drop P (suc n) (x ∷ xs) (px, all) = All-drop P n xs all

-- The first entries of an ordered list are no younger than the others.
IsOrdered-split :
    (n : ℕ) (xs : List (String × Runner))
    → IsOrdered xs
    → All (λ x. All (IsNoYounger x) (drop n xs)) (take n xs)
IsOrdered-split zero xs sorted = tt
IsOrdered-split (suc n) [] sorted = tt
IsOrdered-split (suc n) (x ∷ xs) (first, sorted) =
    (All-drop (IsNoYounger x) n xs first, IsOrdered-split n xs sorted)

pub take-drop : (n : ℕ) (xs : List (String × Runner)) → take n xs ++ drop n xs ≡ xs
take-drop zero xs = refl
take-drop (suc n) [] = refl
take-drop (suc n) (x ∷ xs) = ap (λ t. x ∷ t) (take-drop n xs)

-- The first of the sorted candidates are as many as asked for or as there are, and each of them was
-- created no later than each of the others, if the creation time of every candidate is known.
pub sort_by_age-split :
    (n : ℕ) (found : List (String × Runner))
    → All IsKnown found
    → let chosen = take n (sort_by_age found) in
      let others = drop n (sort_by_age found) in
      Perm (chosen ++ others) found
      × (length chosen ≡ min n (length found))
      × All (λ x. All (IsNoYounger x) others) chosen
sort_by_age-split n found known =
    let sorted = sort_by_age found in
    (
      ∣ subst (λ xs. Permᴰ xs found) (sym (take-drop n sorted)) (sort_by_age-perm found) ∣₁,
      omega (arith, length-take n sorted, sort_by_age-length found),
      IsOrdered-split n sorted (sort_by_age-IsOrdered found known).1,
    )
