-- ===== src/Limits/Agreement.antt =====
-- The limit of the environment against the option of the command line.
use mathlib.Core.List.{reverse, reverse-reverse, reverse-append}
use dockerfile_x.Common.{
  ℕ, ◌≤◌, ◌≡◌, refl, true, ◌||◌, not, Option, some, none, [], ◌∷◌, ◌++◌, Text, codes, ltb, all,
  is_digit, is_space, drop_while, arith, Bool-cases, inl, inr, same, same_refl, eq_of_same, trim,
}
use dockerfile_x.Errors.{Thrown, ok, err, plain}
use dockerfile_x.Limits.{
  parse_number, to_decimal, check_environment, get_max_include_depth_from_env, parse_flag,
}
use dockerfile_x.Limits.Decimal.{IsNumeral, digits-IsNumeral, parse_number-to_decimal}

check_environment-ok :
    (raw : Text) (o : Option ℕ) (n : ℕ)
    → check_environment raw o ≡ ok (some n)
    → (o ≡ some n) × (1 ≤ n) × (trim raw ≡ to_decimal n)
unfolding check_environment
check_environment-ok raw none n h = cc
check_environment-ok raw (some m) n h = ground (arith, eq_of_same (to_decimal m) (trim raw))

-- What the environment accepts as a limit, the option accepts as the same limit: a number of at least 1,
-- written in decimal without a sign, leading zeros or anything behind it.
pub get_max_include_depth_from_env-parse_flag :
    (raw : Text) (n : ℕ)
    → get_max_include_depth_from_env (some raw) ≡ ok (some n)
    → (parse_flag raw ≡ ok n) × (1 ≤ n) × (trim raw ≡ to_decimal n)
unfolding get_max_include_depth_from_env parse_flag
get_max_include_depth_from_env-parse_flag [] n h = cc
get_max_include_depth_from_env-parse_flag (c ∷ raw) n h =
    let (e, low, written) = check_environment-ok (c ∷ raw) (parse_number (c ∷ raw)) n h in
    (rw e (ground arith), low, written)

-- No white space at the ends.
drop_while-numeral : (s : Text) → all is_digit s ≡ true → drop_while is_space s ≡ s
unfolding drop_while is_space
drop_while-numeral [] h = refl
drop_while-numeral (c ∷ s) h = ground arith

all-append :
    (s t : Text) → all is_digit s ≡ true → all is_digit t ≡ true → all is_digit (s ++ t) ≡ true
all-append [] t h k = k
all-append (c ∷ s) t h k = ground (arith, all-append s t)

all-reverse : (s : Text) → all is_digit s ≡ true → all is_digit (reverse s) ≡ true
all-reverse [] h = refl
all-reverse (c ∷ s) h =
    rw (reverse-append (c ∷ []) s)
      (all-append (reverse s) (c ∷ []) (all-reverse s (ground arith)) (ground arith))

trim-numeral : (s : Text) → all is_digit s ≡ true → trim s ≡ s
unfolding trim
trim-numeral s h =
    rw (drop_while-numeral s h, drop_while-numeral (reverse s) (all-reverse s h))
      (reverse-reverse s)

all_of_IsNumeral : (s : Text) → IsNumeral s → all is_digit s ≡ true
all_of_IsNumeral [] h = elim h [ ]
all_of_IsNumeral (c ∷ s) h = h

written_env :
    (s : Text) (n : ℕ)
    → IsNumeral s
    → get_max_include_depth_from_env (some s) ≡ check_environment s (parse_number s)
unfolding get_max_include_depth_from_env
written_env [] n h = elim h [ ]
written_env (c ∷ s) n h = refl

-- Every limit of at least 1, written in decimal, is accepted by the environment as itself.
get_max_include_depth_from_env-to_decimal :
    (n : ℕ) → 1 ≤ n → get_max_include_depth_from_env (some (to_decimal n)) ≡ ok (some n)
unfolding check_environment
get_max_include_depth_from_env-to_decimal n h =
    let numeral : IsNumeral (to_decimal n) = unfold to_decimal in digits-IsNumeral n n in
    rw
      (
        written_env (to_decimal n) n numeral,
        parse_number-to_decimal n,
        trim-numeral (to_decimal n) (all_of_IsNumeral _ numeral),
        same_refl (to_decimal n),
      )
      (ground arith)

-- The text that the environment is refused with.
abbrev pub refusal : Text → Text
refusal raw =
    codes "DOCKERFILEX_MAX_INCLUDE_DEPTH must be a positive integer (got \"" ++ (raw ++ codes "\")")

check_environment-err :
    (raw : Text) (o : Option ℕ) (e : Thrown)
    → check_environment raw o ≡ err e
    → e ≡ plain (refusal raw)
unfolding check_environment
check_environment-err raw none e h = cc
check_environment-err raw (some n) e h =
    elim (Bool-cases (ltb n 1 || not (same (to_decimal n) (trim raw)))) [
      | inl k ↦ cc (rw k at h)
      | inr k ↦ cc (rw k at h)
    ]

-- The environment is refused only for a value that it has, and the message quotes it.
pub get_max_include_depth_from_env-err :
    (variable : Option Text) (e : Thrown)
    → get_max_include_depth_from_env variable ≡ err e
    → (raw : Text) × (variable ≡ some raw) × (e ≡ plain (refusal raw))
unfolding get_max_include_depth_from_env
get_max_include_depth_from_env-err none e h = cc
get_max_include_depth_from_env-err (some []) e h = cc
get_max_include_depth_from_env-err (some (c ∷ raw)) e h =
    (c ∷ raw, refl, check_environment-err (c ∷ raw) (parse_number (c ∷ raw)) e h)
