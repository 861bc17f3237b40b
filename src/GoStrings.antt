-- ===== src/GoStrings.antt =====
-- What the source uses of Go's package strings, on texts of code points. The lower case of a
-- character beyond ASCII is a table of Unicode, which is a parameter.
pub mod Trim
use Prim.Native.Nat.{Ordering, compare}
use Prim.Native.Char.{Char, char, code, IsScalar}
use Prim.Native.String.{[], ◌∷◌}
use oxide_gha_runner_scale_s.Prelude.{
  ℕ, String, ◌≡◌, Bool, true, false, ◌||◌, ◌&&◌, ◌+◌, ◌<◌, List, leb, ltb, ◌==◌, if◌then◌else◌,
  arith, dec_lt,
}
use mathlib.Core.List.{[] as nil, ◌∷◌ as cons}

-- `unicode.IsSpace`.
unfoldable pub is_space : Char → Bool
is_space c =
    let n = code c in
    (leb 9 n && leb n 13)
    || n == 32
    || n == 133
    || n == 160
    || n == 5760
    || (leb 8192 n && leb n 8202)
    || n == 8232
    || n == 8233
    || n == 8239
    || n == 8287
    || n == 12288

-- `strings.TrimLeftFunc`.
unfoldable pub trim_left : (Char → Bool) → String → String
trim_left p [] = []
trim_left p (c ∷ s) = if p c then trim_left p s else c ∷ s

-- A character before a text that is trimmed on the right.
abbrev pub trim_before : (Char → Bool) → Char → String → String
trim_before p c [] = if p c then [] else c ∷ []
trim_before p c (d ∷ s) = c ∷ d ∷ s

-- `strings.TrimRightFunc`.
unfoldable pub trim_right : (Char → Bool) → String → String
trim_right p [] = []
trim_right p (c ∷ s) = trim_before p c (trim_right p s)

unfoldable pub trim : (Char → Bool) → String → String
unfolding trim_left trim_right
trim p s = trim_right p (trim_left p s)

-- `strings.TrimSpace`.
unfoldable pub trim_space : String → String
unfolding trim is_space
trim_space s = trim is_space s

abbrev pub is_slash : Char → Bool
is_slash c = code c == 47

abbrev pub is_colon : Char → Bool
is_colon c = code c == 58

pub ascii-IsScalar : (n : ℕ) → n < 128 → IsScalar (n + 32)
ascii-IsScalar n h = let below : compare (n + 32) 55296 ≡ Ordering.lt = ground arith in rw below tt

-- The lower case of a character; `beyond` is the table beyond ASCII.
unfoldable pub lower_char : (Char → Char) → Char → Char
unfolding dec_lt
lower_char beyond (char n h) = elim (dec_lt n 128) [
  | yes small ↦ if leb 65 n && leb n 90 then char (n + 32) (ascii-IsScalar n small) else char n h
  | no large ↦ beyond (char n h)
]

-- `strings.ToLower`.
unfoldable pub to_lower : (Char → Char) → String → String
unfolding lower_char
to_lower beyond [] = []
to_lower beyond (c ∷ s) = lower_char beyond c ∷ to_lower beyond s

-- The first part of `strings.Split`, with a character put before it.
abbrev pub onto_first : Char → List String → List String
onto_first c nil = cons (c ∷ []) nil
onto_first c (cons part parts) = cons (c ∷ part) parts

-- `strings.Split` at a character.
unfoldable pub split : (Char → Bool) → String → List String
split p [] = cons [] nil
split p (c ∷ s) = let rest = split p s in if p c then cons [] rest else onto_first c rest

-- `strings.Contains` of a character.
unfoldable pub contains : (Char → Bool) → String → Bool
contains p [] = false
contains p (c ∷ s) = p c || contains p s
