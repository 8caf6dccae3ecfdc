-- ===== src/Download/Settings.antt =====
-- src/lib/downloadWithCache.js: the limits that are read from the environment. `Number(raw)` is exact here, with
-- the tests for what a float rounds to infinity and to zero; every other number is rounded in the code.
pub mod Checked
use Prim.Native.Nat.{◌^◌}
use dockerfile_x.Common.{
  ℕ, zero, ◌+◌, ◌-◌, ◌*◌, Bool, true, false, ◌&&◌, ◌||◌, Option, none, some, List, [], ◌∷◌, ◌++◌,
  Text, codes, ◌==◌, ltb, leb, if◌then◌else◌, length, same, is_digit, take_while, drop_while, trim,
}
use dockerfile_x.Download.Address.{decimal_from, is_number}
use dockerfile_x.Spawn.{infinity}

-- `mantissa * 10 ^ ups / 10 ^ downs`
pub record Amount : Type 0 where
  pub mantissa : ℕ
  pub ups : ℕ
  pub downs : ℕ

-- A number, with `true` where it has a minus sign.
pub data Number : Type 0 where
  nan : Number
  infinite : Bool → Number
  finite : Bool → Amount → Number

abbrev pub whole : ℕ → Amount
whole n = record { mantissa = n; ups = 0; downs = 0 }

-- Behind `e` and its sign: the digits of the exponent.
unfoldable pub up : Bool → ℕ → ℕ → Text → Number
unfolding is_number decimal_from
up negative m downs s =
    if is_number s
    then finite negative (record { mantissa = m; ups = decimal_from 0 s; downs = downs })
    else nan

unfoldable pub down : Bool → ℕ → ℕ → Text → Number
unfolding is_number decimal_from
down negative m downs s =
    if is_number s
    then finite negative (record { mantissa = m; ups = 0; downs = downs + decimal_from 0 s })
    else nan

unfoldable pub exponent : Bool → ℕ → ℕ → Text → Number
unfolding up down
exponent negative m downs [] = nan
exponent negative m downs (c ∷ s) =
    if c == b'+'
    then up negative m downs s
    else if c == b'-'
    then down negative m downs s
    else up negative m downs (c ∷ s)

-- Behind the digits, of which `downs` stand behind the point.
unfoldable pub scaled : Bool → ℕ → ℕ → Text → Number
unfolding exponent
scaled negative m downs [] = finite negative (record { mantissa = m; ups = 0; downs = downs })
scaled negative m downs (c ∷ s) =
    if c == b'e' || c == b'E' then exponent negative m downs s else nan

unfoldable pub some_digits : Bool → Text → ℕ → Text → Number
unfolding decimal_from scaled
some_digits negative [] downs rest = nan
some_digits negative (c ∷ digits) downs rest =
    scaled negative (decimal_from 0 (c ∷ digits)) downs rest

unfoldable pub pointed : Bool → Text → Text → Number
unfolding some_digits take_while drop_while
pointed negative front [] = some_digits negative front 0 []
pointed negative front (c ∷ s) =
    if c == b'.'
    then some_digits negative (front ++ take_while is_digit s) (length (take_while is_digit s))
        (drop_while is_digit s)
    else some_digits negative front 0 (c ∷ s)

unfoldable pub unsigned : Bool → Text → Number
unfolding same take_while drop_while pointed
unsigned negative s =
    if same s (codes "Infinity")
    then infinite negative
    else pointed negative (take_while is_digit s) (drop_while is_digit s)

-- The value of a digit, and 16 for what is none.
abbrev pub digit_value : ℕ → ℕ
digit_value c =
    if is_digit c
    then c - b'0'
    else if leb b'a' c && leb c b'f'
    then c - b'a' + 10
    else if leb b'A' c && leb c b'F'
    then c - b'A' + 10
    else 16

unfoldable pub in_base : ℕ → ℕ → Text → Number
in_base base n [] = finite false (whole n)
in_base base n (c ∷ s) =
    let rest = in_base base (n * base + digit_value c) s in
    if ltb (digit_value c) base then rest else nan

unfoldable pub prefixed : ℕ → Text → Number
unfolding in_base
prefixed base [] = nan
prefixed base (c ∷ s) = in_base base 0 (c ∷ s)

-- The letter of `0x`, `0o` or `0b`.
abbrev pub base_of : ℕ → Option ℕ
base_of c =
    if c == b'x' || c == b'X'
    then some 16
    else if c == b'o' || c == b'O'
    then some 8
    else if c == b'b' || c == b'B'
    then some 2
    else none

unfoldable pub signed : Text → Number
unfolding unsigned
signed [] = finite false (whole 0)
signed (c ∷ s) =
    if c == b'+'
    then unsigned false s
    else if c == b'-'
    then unsigned true s
    else unsigned false (c ∷ s)

unfoldable pub based : Option ℕ → Text → Text → Number
unfolding signed prefixed
based none s digits = signed s
based (some base) s digits = prefixed base digits

unfoldable pub trimmed_number : Text → Number
unfolding based signed
trimmed_number (z ∷ c ∷ s) = based (if z == b'0' then base_of c else none) (z ∷ c ∷ s) s
trimmed_number s = signed s

-- `Number(raw)`
unfoldable pub to_number : Text → Number
unfolding trimmed_number trim
to_number raw = trimmed_number (trim raw)

-- A float of this size is infinite.
unfoldable pub rounds_to_infinity : Amount → Bool
unfolding infinity
rounds_to_infinity a = leb (infinity * 10 ^ a.downs) (a.mantissa * 10 ^ a.ups)

-- A float of this size is 0: it is at most half of the least one.
unfoldable pub rounds_to_zero : Amount → Bool
rounds_to_zero a = leb (a.mantissa * 10 ^ a.ups * 2 ^ 1075) (10 ^ a.downs)

-- `!Number.isFinite(n) || n <= 0`, and what is returned.
unfoldable pub positive_or : ℕ → Number → Amount
unfolding rounds_to_infinity rounds_to_zero
positive_or default (finite false a) =
    if rounds_to_infinity a || rounds_to_zero a then whole default else a
positive_or default _ = whole default

-- `!Number.isFinite(n) || n < 0`, and what is returned.
unfoldable pub natural_or : ℕ → Number → Amount
unfolding rounds_to_infinity rounds_to_zero
natural_or default nan = whole default
natural_or default (infinite negative) = whole default
natural_or default (finite false a) = if rounds_to_infinity a then whole default else a
natural_or default (finite true a) = if rounds_to_zero a then whole 0 else whole default

-- The three variables; `none` is `undefined`, and an empty text is falsy.
abbrev pub default_http_timeout_ms : ℕ
default_http_timeout_ms = 30000

unfoldable pub get_http_timeout_ms : Option Text → Amount
unfolding to_number positive_or
get_http_timeout_ms none = whole default_http_timeout_ms
get_http_timeout_ms (some []) = whole default_http_timeout_ms
get_http_timeout_ms (some (c ∷ raw)) = positive_or default_http_timeout_ms (to_number (c ∷ raw))

abbrev pub default_max_http_bytes : ℕ
default_max_http_bytes = 1048576

unfoldable pub get_max_http_bytes : Option Text → Amount
unfolding to_number positive_or
get_max_http_bytes none = whole default_max_http_bytes
get_max_http_bytes (some []) = whole default_max_http_bytes
get_max_http_bytes (some (c ∷ raw)) = positive_or default_max_http_bytes (to_number (c ∷ raw))

abbrev pub default_max_redirects : ℕ
default_max_redirects = 5

unfoldable pub get_max_redirects : Option Text → Amount
unfolding to_number natural_or
get_max_redirects none = whole default_max_redirects
get_max_redirects (some []) = whole default_max_redirects
get_max_redirects (some (c ∷ raw)) = natural_or default_max_redirects (to_number (c ∷ raw))
