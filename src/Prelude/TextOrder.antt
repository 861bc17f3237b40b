-- ===== src/Prelude/TextOrder.antt =====
-- The order of Go's strings, which is that of their code points.
use Prim.Native.Nat.{Ordering, compare}
use Prim.Native.Char.{code}
use Prim.Native.String.{String, [], ◌∷◌}
use mathlib.Core.Path.{◌≡◌, refl}
use mathlib.Core.Logic.{◌⊎◌, inl, inr}
use mathlib.Core.Bool.{Bool, true, false}
use native.Mathlib.Omega.{arith}
use text.Mathlib.TextEquality.{codes_equal}

-- What the first code points say, or else the rest.
abbrev pub by_code : Ordering → Bool → Bool
by_code Ordering.lt rest = true
by_code Ordering.eq rest = rest
by_code Ordering.gt rest = false

unfoldable pub str_leb : String → String → Bool
str_leb [] t = true
str_leb (c ∷ s) [] = false
str_leb (c ∷ s) (d ∷ t) = by_code (compare (code c) (code d)) (str_leb s t)

pub str_leb_total : (s t : String) → (str_leb s t ≡ true) ⊎ (str_leb t s ≡ true)
unfolding str_leb
str_leb_total [] t = inl refl
str_leb_total (c ∷ s) [] = inr refl
str_leb_total (c ∷ s) (d ∷ t) = ground (arith, str_leb_total s t)

pub str_leb_trans : (s t u : String) → str_leb s t ≡ true → str_leb t u ≡ true → str_leb s u ≡ true
unfolding str_leb
str_leb_trans [] t u h k = refl
str_leb_trans (c ∷ s) [] u h k = ground arith
str_leb_trans (c ∷ s) (d ∷ t) [] h k = ground arith
str_leb_trans (c ∷ s) (d ∷ t) (e ∷ u) h k = ground (arith, str_leb_trans s t u)

pub str_leb_antisym : (s t : String) → str_leb s t ≡ true → str_leb t s ≡ true → s ≡ t
unfolding str_leb
str_leb_antisym [] [] h k = refl
str_leb_antisym [] (d ∷ t) h k = ground arith
str_leb_antisym (c ∷ s) [] h k = ground arith
str_leb_antisym (c ∷ s) (d ∷ t) h k =
    let same : code c ≡ code d = ground arith in
    let rest : (str_leb s t ≡ true) × (str_leb t s ≡ true) = ground arith in
    (λ i. codes_equal c d (ground arith) i ∷ str_leb_antisym s t rest.0 rest.1 i)
