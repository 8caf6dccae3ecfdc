-- ===== src/Download/Address.antt =====
-- Which literal addresses are private, and the list of addresses and hosts that are allowed all the same.
pub mod Blocks
use dockerfile_x.Common.{
  ℕ, zero, suc, ◌+◌, ◌-◌, ◌*◌, Bool, true, false, not, ◌&&◌, ◌||◌, Option, none, some, List, [],
  ◌∷◌, ◌++◌, map, Text, codes, ◌==◌, ltb, leb, if◌then◌else◌, all, any, length, take, is_digit,
  is_some, same, starts_with, ends_with, strip_prefix, take_while, to_lower, trim, drop,
}
use dockerfile_x.Common.Split.{split_at}
use dockerfile_x.Errors.{Result, ok, err, plain, ◌>>=◌}
use Prim.Native.Nat.{◌/◌, ◌^◌}

-- The value of a text of digits.
unfoldable pub decimal_from : ℕ → Text → ℕ
decimal_from n [] = n
decimal_from n (c ∷ s) = decimal_from (n * 10 + (c - b'0')) s

-- `Number.parseInt(s, 10)` of a text that has no sign and no white space in front; `none` is NaN.
unfoldable pub parse_int : Text → Option ℕ
unfolding take_while decimal_from
parse_int s = elim (take_while is_digit s) [
  | [] ↦ none
  | c ∷ digits ↦ some (decimal_from 0 (c ∷ digits))
]

-- `normalizeIp`
unfoldable pub cut_zone : Text → Text
unfolding take_while
cut_zone = take_while (λ c. not (c == b'%'))

unfoldable pub normalize_ip : Text → Text
unfolding starts_with ends_with cut_zone
normalize_ip ip =
    if starts_with (codes "[") ip && ends_with (codes "]") ip
    then cut_zone (take (length ip - 1 - 1) (drop 1 ip))
    else cut_zone ip

-- The tests of `isPrivateIPv4` on the first two numbers.
unfoldable pub is_private_octets : ℕ → ℕ → Bool
is_private_octets a b =
    a == 0
    || (a == 10
        || (a == 127
            || ((a == 169 && b == 254)
                || ((a == 172 && (leb 16 b && leb b 31))
                    || ((a == 192 && b == 168) || leb 224 a)))))

-- Four parts, each a number.
abbrev pub octets : List (Option ℕ) → Option (ℕ × ℕ × ℕ × ℕ)
octets (some a ∷ some b ∷ some c ∷ some d ∷ []) = some (a, b, c, d)
octets _ = none

abbrev pub private_octets : Option (ℕ × ℕ × ℕ × ℕ) → Bool
unfolding is_private_octets
private_octets none = false
private_octets (some (a, b, c, d)) = is_private_octets a b

unfoldable pub is_private_ipv4 : Text → Bool
unfolding split_at parse_int private_octets
is_private_ipv4 ip = private_octets (octets (map parse_int (split_at b'.' ip)))

-- `/^\d+$/`
unfoldable pub is_number : Text → Bool
is_number [] = false
is_number (c ∷ s) = all is_digit (c ∷ s)

-- `/^\d+\.\d+\.\d+\.\d+$/`
unfoldable pub is_dotted : Text → Bool
unfolding split_at is_number
is_dotted s = length (split_at b'.' s) == 4 && all is_number (split_at b'.' s)

abbrev pub mapped : Option Text → Bool
unfolding is_dotted is_private_ipv4
mapped none = false
mapped (some v4) = is_dotted v4 && is_private_ipv4 v4

unfoldable pub is_private_ipv6 : Text → Bool
unfolding to_lower same starts_with strip_prefix mapped
is_private_ipv6 ip =
    let lower = to_lower ip in
    (same lower (codes "::") || same lower (codes "::1"))
    || ((starts_with (codes "fe8") lower
          || (starts_with (codes "fe9") lower
              || (starts_with (codes "fea") lower || starts_with (codes "feb") lower)))
        || ((starts_with (codes "fc") lower || starts_with (codes "fd") lower)
            || mapped (strip_prefix (codes "::ffff:") lower)))

-- `isPrivateIp`; `is_ip` is `net.isIP`, which is 4, 6 or 0.
unfoldable pub is_private_ip : (Text → ℕ) → Text → Bool
unfolding normalize_ip is_private_ipv4 is_private_ipv6
is_private_ip is_ip ip =
    let s = normalize_ip ip in
    if is_ip s == 4 then is_private_ipv4 s else if is_ip s == 6 then is_private_ipv6 s else false
