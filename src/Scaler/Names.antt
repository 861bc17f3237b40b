-- ===== src/Scaler/Names.antt =====
-- internal/scaler/scaler.go: the names by which a scaler finds its resources again.
use Prim.Native.String.{◌++◌}
use oxide_gha_runner_scale_s.Prelude.{
  ℕ, zero, suc, String, ◌/◌, ◌%◌, List, [], ◌∷◌, ℤ, pos, negsuc, ltb, if◌then◌else◌, take,
}
use oxide_gha_runner_scale_s.Api.{Log}
use oxide_gha_runner_scale_s.Scaler.World.{World, Scaler}

-- The text of a digit, decimal or hexadecimal.
abbrev digit_of : List String → ℕ → String
digit_of [] n = ""
digit_of (d ∷ ds) zero = d
digit_of (d ∷ ds) (suc n) = digit_of ds n

unfoldable pub digit : ℕ → String
digit n =
    digit_of
      ("0" ∷ "1" ∷ "2" ∷ "3" ∷ "4" ∷ "5" ∷ "6" ∷ "7" ∷ "8" ∷ "9" ∷ "a" ∷ "b" ∷ "c" ∷ "d" ∷ "e" ∷ "f"
        ∷ [])
      n

-- `hex.EncodeToString`.
unfoldable pub hex_encode : List ℕ → String
unfolding digit
hex_encode [] = ""
hex_encode (b ∷ bs) = digit (b / 16) ++ digit (b % 16) ++ hex_encode bs

-- The decimal digits of a number, with fuel above the number of its digits.
unfoldable pub decimal : ℕ → ℕ → String
unfolding digit
decimal zero n = ""
decimal (suc fuel) n =
    let rest = decimal fuel (n / 10) in if ltb n 10 then digit n else rest ++ digit (n % 10)

-- `strconv.Itoa`.
unfoldable pub itoa : ℤ → String
unfolding decimal
itoa (pos n) = decimal (suc n) n
itoa (negsuc n) = "-" ++ decimal (suc (suc n)) (suc n)

abbrev pub name_prefix_hash_bytes : ℕ
name_prefix_hash_bytes = 12

unfoldable pub name_prefix : World → Scaler → String
unfolding itoa hex_encode
name_prefix w s =
    "gha-runner-"
    ++ hex_encode (
        take name_prefix_hash_bytes
          (w.sha256 (s.scale_set.namespace ++ "\0" ++ itoa s.scale_set.id)))
    ++ "-"

-- The name of the n-th runner that a call of `provisionRunners` starts.
unfoldable pub new_runner_name : World → Scaler → Log → ℕ → String
unfolding name_prefix hex_encode
new_runner_name w s l n = name_prefix w s ++ hex_encode (w.random_bytes l n)
