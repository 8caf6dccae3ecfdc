-- ===== src/Limits.antt =====
-- src/core/limits.js and the option `--max-include-depth` of src/cli/program.js: the limit on the nesting of
-- includes. A number is exact here; a float is exact below 2^53.
pub mod Decimal
pub mod Agreement
use Prim.Native.Nat.{◌/◌, ◌%◌}
use dockerfile_x.Common.{
  ℕ, zero, suc, ◌+◌, ◌||◌, not, Option, none, some, List, [], ◌∷◌, ◌++◌, Text, codes, ◌==◌, ltb,
  if◌then◌else◌, same, trim, drop_while, is_space,
}
use dockerfile_x.Errors.{Result, ok, err, plain}
use dockerfile_x.Download.Address.{parse_int}

abbrev pub default_max_include_depth : ℕ
default_max_include_depth = 32

-- `Number.parseInt(s, 10)` behind the white space in front; `none` is NaN or a number below 0, with which
-- both callers do the same.
abbrev pub parse_signed : Text → Option ℕ
unfolding parse_int
parse_signed [] = none
parse_signed (c ∷ s) = if c == b'+' then parse_int s else parse_int (c ∷ s)

unfoldable pub parse_number : Text → Option ℕ
unfolding parse_signed drop_while is_space
parse_number s = parse_signed (drop_while is_space s)

-- `String(n)`: one digit for each round, and fewer rounds than `n + 1`.
unfoldable pub digits : ℕ → ℕ → Text
digits zero n = (b'0' + n % 10) ∷ []
digits (suc rounds) n =
    let front = digits rounds (n / 10) in
    if ltb n 10 then (b'0' + n) ∷ [] else front ++ (b'0' + n % 10) ∷ []

unfoldable pub to_decimal : ℕ → Text
unfolding digits
to_decimal n = digits n n

abbrev pub bad_environment : Text → Result (Option ℕ)
bad_environment raw = err (
    plain (
      codes "DOCKERFILEX_MAX_INCLUDE_DEPTH must be a positive integer (got \""
      ++ (raw ++ codes "\")")))

-- `Number.isNaN(n) || n < 1 || String(n) !== raw.trim()`
abbrev pub check_environment : Text → Option ℕ → Result (Option ℕ)
unfolding to_decimal same trim
check_environment raw none = bad_environment raw
check_environment raw (some n) =
    if ltb n 1 || not (same (to_decimal n) (trim raw)) then bad_environment raw else ok (some n)

-- `getMaxIncludeDepthFromEnv` at the value of the variable; `none` is `undefined`.
unfoldable pub get_max_include_depth_from_env : Option Text → Result (Option ℕ)
unfolding check_environment parse_number
get_max_include_depth_from_env none = ok none
get_max_include_depth_from_env (some []) = ok none
get_max_include_depth_from_env (some (c ∷ raw)) =
    check_environment (c ∷ raw) (parse_number (c ∷ raw))

abbrev pub bad_flag : Text → Result ℕ
bad_flag v =
    err
      (plain (codes "--max-include-depth must be a positive integer (got \"" ++ (v ++ codes "\")")))

abbrev pub check_flag : Text → Option ℕ → Result ℕ
check_flag v none = bad_flag v
check_flag v (some n) = if ltb n 1 then bad_flag v else ok n

-- The value of `--max-include-depth <n>`.
unfoldable pub parse_flag : Text → Result ℕ
unfolding parse_number
parse_flag v = check_flag v (parse_number v)
