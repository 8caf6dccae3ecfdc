-- ===== src/Download/Redirects.antt =====
-- The allow list of redirects, and the test that is made before each redirect.
pub mod Guarded
use Prim.Native.Nat.{◌/◌, ◌^◌, ◌%◌}
use dockerfile_x.Common.{
  ℕ, suc, ◌+◌, ◌-◌, ◌*◌, Bool, true, false, not, ◌&&◌, ◌||◌, Option, none, some, List, [], ◌∷◌,
  ◌++◌, map, Text, codes, ◌==◌, ltb, if◌then◌else◌, same, starts_with, ends_with, to_lower, trim,
  drop,
}
use dockerfile_x.Common.Split.{split_at}
use dockerfile_x.Errors.{Thrown, Result, ok, err, plain, ◌>>=◌}
use dockerfile_x.Download.Address.{parse_int, is_number, is_dotted, is_private_ip}

-- An entry of the list: `{ kind, … }`.
pub data Pattern : Type 0 where
  cidr4 : Text → ℕ → Pattern
  ip : Text → Pattern
  suffix : Text → Pattern
  host : Text → Pattern

-- What `new URL` gives of an address.
pub record Url : Type 0 where
  pub href : Text
  pub protocol : Text
  pub host : Text
  pub hostname : Text

-- The platform: `net.isIP`, `new URL(url)`, and `new URL(location, base)`, where `none` is a throw.
pub record Platform : Type 0 where
  pub is_ip : Text → ℕ
  pub parse_url : Text → Option Url
  pub new_url : Text → Text → Option Url

-- The match of `/^(\d+\.\d+\.\d+\.\d+)\/(\d+)$/`
abbrev pub cidr_parts : List Text → Option (Text × Text)
unfolding is_dotted is_number
cidr_parts (a ∷ b ∷ []) = if is_dotted a && is_number b then some (a, b) else none
cidr_parts _ = none

abbrev pub or_zero : Option ℕ → ℕ
or_zero none = 0
or_zero (some n) = n

-- `ipv4ToInt`: the shifted numbers, of 8 bits each, have no bit in common; `>>> 0` takes 32 bits.
unfoldable pub ipv4_to_int : Text → ℕ
unfolding split_at parse_int
ipv4_to_int s = elim (map parse_int (split_at b'.' s)) [
  | a ∷ b ∷ c ∷ d ∷ _ ↦
      (or_zero a * 16777216 + or_zero b * 65536 + or_zero c * 256 + or_zero d) % 2 ^ 32
  | _ ↦ 0
]

-- The three errors of `beforeRedirect`.
abbrev pub downgrade : Text → Url → Thrown
downgrade url next = plain (
    codes "refusing HTTPS"
    ++ 0x2192 ∷ codes "HTTP downgrade redirect: "
    ++ (url ++ (codes " -> " ++ next.href)))

abbrev pub other_scheme : Text → Url → Thrown
other_scheme url next =
    plain
      (codes "refusing redirect to non-http(s) scheme: " ++ (url ++ (codes " -> " ++ next.href)))

abbrev pub private_target : Text → Url → Thrown
private_target url next = plain (
    codes "refusing cross-host redirect to private IP: "
    ++ (url
        ++ (codes " -> "
            ++ (next.href ++ codes " (set DOCKERFILEX_REDIRECT_ALLOWLIST to opt in)"))))

module _ (platform : Platform) where
  open platform use {is_ip, new_url}

  abbrev pub cidr_pattern : Text → Option (Text × Text) → Option (Result Pattern)
  unfolding parse_int
  cidr_pattern p none = none
  cidr_pattern p (some (address, bits)) = some (
      if not (is_ip address == 4) || ltb 32 (or_zero (parse_int bits))
      then err (plain (codes "invalid CIDR in DOCKERFILEX_REDIRECT_ALLOWLIST: " ++ p))
      else ok (cidr4 address (or_zero (parse_int bits))))

  unfoldable pub parse_allowlist_pattern : Text → Result Pattern
  unfolding cidr_parts cidr_pattern split_at to_lower starts_with
  parse_allowlist_pattern p = elim (cidr_pattern p (cidr_parts (split_at b'/' p))) [
    | some result ↦ result
    | none ↦
        if not (is_ip p == 0)
        then ok (ip (to_lower p))
        else if starts_with (codes "*.") p
        then ok (suffix (to_lower (drop 1 p)))
        else ok (host (to_lower p))
  ]

  -- `.map((s) => s.trim()).filter(Boolean).map(parseAllowlistPattern)`
  unfoldable pub parse_patterns : List Text → Result (List Pattern)
  unfolding trim parse_allowlist_pattern
  parse_patterns [] = ok []
  parse_patterns (s ∷ l) = elim (trim s) [
    | [] ↦ parse_patterns l
    | c ∷ t ↦ do p ← parse_allowlist_pattern (c ∷ t); ps ← parse_patterns l; ok (p ∷ ps)
  ]

  unfoldable pub parse_redirect_allowlist : Text → Result (List Pattern)
  unfolding parse_patterns split_at
  parse_redirect_allowlist [] = ok []
  parse_redirect_allowlist (c ∷ raw) = parse_patterns (split_at b',' (c ∷ raw))

  -- Two addresses agree under a mask of `bits` leading ones.
  abbrev pub same_network : ℕ → ℕ → ℕ → Bool
  same_network bits x y = x / 2 ^ (32 - bits) == y / 2 ^ (32 - bits)

  unfoldable pub matches_pattern : Text → Pattern → Bool
  unfolding same to_lower ends_with ipv4_to_int
  matches_pattern hostname (host h) = same h (to_lower hostname)
  matches_pattern hostname (suffix s) = ends_with s (to_lower hostname)
  matches_pattern hostname (ip a) = same a (to_lower hostname)
  matches_pattern hostname (cidr4 a bits) =
      is_ip hostname == 4 && same_network bits (ipv4_to_int hostname) (ipv4_to_int a)

  unfoldable pub matches_allowlist : Text → List Pattern → Bool
  unfolding matches_pattern
  matches_allowlist hostname [] = false
  matches_allowlist hostname (p ∷ l) = matches_pattern hostname p || matches_allowlist hostname l

  -- The tests of `beforeRedirect` on the target, for a download of `url`, which parses as `from`.
  unfoldable pub check_redirect : Text → Url → List Pattern → Url → Result (Unit {0})
  unfolding same is_private_ip matches_allowlist
  check_redirect url from list next =
      if same from.protocol (codes "https:") && same next.protocol (codes "http:")
      then err (downgrade url next)
      else if not (same next.protocol (codes "http:")) && not (same next.protocol (codes "https:"))
      then err (other_scheme url next)
      else if not (same next.host from.host)
          && (is_private_ip is_ip next.hostname && not (matches_allowlist next.hostname list))
      then err (private_target url next)
      else ok tt

  -- `beforeRedirect` for the `location` of the answer, where an empty one is falsy.
  unfoldable pub before_redirect : Text → Url → List Pattern → Option Text → Result (Unit {0})
  unfolding check_redirect
  before_redirect url from list none = ok tt
  before_redirect url from list (some []) = ok tt
  before_redirect url from list (some (c ∷ location)) = elim (new_url (c ∷ location) url) [
    | none ↦ err (plain (codes "invalid redirect target: " ++ c ∷ location))
    | some next ↦ check_redirect url from list next
  ]
