-- ===== src/Download/Redirects/Guarded.antt =====
-- Which redirects are followed.
use dockerfile_x.Common.{
  ◌≡◌, refl, ℕ, ◌==◌, Bool-cases, Bool, true, false, not, ◌&&◌, List, Text, codes, same,
  if◌then◌else◌, arith, ◌⊎◌, inl, inr, ◌↔◌, same_iff, eq_of_same,
}
use dockerfile_x.Errors.{Thrown, Result, ok, err}
use dockerfile_x.Download.Address.{is_private_ip, is_private_ipv4, is_private_ipv6, normalize_ip}
use dockerfile_x.Download.Redirects.{
  ip, matches_pattern, Pattern, Url, Platform, matches_allowlist, check_redirect,
}

-- What the policy asks of a redirect from one address to another.
pub record IsPermitted (platform : Platform) (from next : Url) (list : List Pattern) : Type 0 where
  pub scheme : (next.protocol ≡ codes "https:") ⊎ (next.protocol ≡ codes "http:")
  pub no_downgrade : from.protocol ≡ codes "https:" → next.protocol ≡ codes "https:"
  pub no_private :
      (next.host ≡ from.host)
      ⊎ (is_private_ip platform.is_ip next.hostname ≡ false)
      ⊎ (matches_allowlist platform next.hostname list ≡ true)

-- The three tests, of a downgrade, of the scheme, and of a private address on another host.
abbrev tests :
    Bool → Bool → Bool → Bool → Bool → Bool → Thrown → Thrown → Thrown → Result (Unit {0})
tests secure http https host private allowed e f g =
    if secure && http
    then err e
    else if not http && not https
    then err f
    else if not host && (private && not allowed)
    then err g
    else ok tt

module _ (secure http https host private allowed : Bool) (e f g : Thrown) where
  scheme_of_tests :
      tests secure http https host private allowed e f g ≡ ok tt → (https ≡ true) ⊎ (http ≡ true)
  scheme_of_tests h = ground arith

  no_downgrade_of_tests :
      tests secure http https host private allowed e f g ≡ ok tt → secure ≡ true → https ≡ true
  no_downgrade_of_tests h s = ground arith

  no_private_of_tests :
      tests secure http https host private allowed e f g ≡ ok tt
      → (host ≡ true) ⊎ (private ≡ false) ⊎ (allowed ≡ true)
  no_private_of_tests h = ground arith

  tests_of_flags :
      (https ≡ true) ⊎ (http ≡ true)
      → (secure ≡ true → http ≡ false)
      → (host ≡ true) ⊎ (private ≡ false) ⊎ (allowed ≡ true)
      → tests secure http https host private allowed e f g ≡ ok tt
  tests_of_flags s d p = ground arith

sum_map {ℓ} : {A B C D : Type ℓ} → (A → C) → (B → D) → A ⊎ B → C ⊎ D
sum_map f g (inl a) = inl (f a)
sum_map f g (inr b) = inr (g b)

not_http_of_https : (s : Text) → s ≡ codes "https:" → same s (codes "http:") ≡ false
unfolding same
not_http_of_https s e = rw e refl

-- The loopback address as a mapped one, as `new URL` prints the host of `http://[::ffff:127.0.0.1]`.
abbrev pub mapped_loopback : Text
mapped_loopback = codes "[::ffff:7f00:1]"

mapped_loopback_passes : (is_ip : Text → ℕ) → is_private_ip is_ip mapped_loopback ≡ false
unfolding is_private_ip is_private_ipv4 is_private_ipv6 normalize_ip
mapped_loopback_passes is_ip = elim (Bool-cases (is_ip (codes "::ffff:7f00:1") == 4)) [
  | inl e ↦ rw e refl
  | inr e ↦ elim (Bool-cases (is_ip (codes "::ffff:7f00:1") == 6)) [
    | inl f ↦ rw (e, f) refl
    | inr f ↦ rw (e, f) refl
  ]
]

bracketed_differs :
    (platform : Platform) → matches_pattern platform (codes "[::1]") (ip (codes "::1")) ≡ false
unfolding matches_pattern
bracketed_differs platform = refl

followed_iff :
    (platform : Platform) (url : Text) (from : Url) (list : List Pattern) (next : Url)
    → (check_redirect platform url from list next ≡ ok tt) ↔ IsPermitted platform from next list
unfolding check_redirect
followed_iff platform url from list next = (
  λ h. record {
    scheme =
        sum_map (eq_of_same next.protocol _) (eq_of_same next.protocol _)
          (scheme_of_tests secure http https on_host private allowed _ _ _ h);
    no_downgrade = λ e. eq_of_same next.protocol _ (
        no_downgrade_of_tests secure http https on_host private allowed _ _ _ h
          ((same_iff from.protocol _).1 e));
    no_private =
        sum_map (eq_of_same next.host _) (λ r. r)
          (no_private_of_tests secure http https on_host private allowed _ _ _ h);
  },
  λ p.
      tests_of_flags secure http https on_host private allowed _ _ _
        (sum_map (same_iff next.protocol _).1 (same_iff next.protocol _).1 p.scheme)
        (λ e. not_http_of_https next.protocol (p.no_downgrade (eq_of_same from.protocol _ e)))
        (sum_map (same_iff next.host _).1 (λ r. r) p.no_private),
)
  where
    secure : Bool
    secure = same from.protocol (codes "https:")

    http : Bool
    http = same next.protocol (codes "http:")

    https : Bool
    https = same next.protocol (codes "https:")

    on_host : Bool
    on_host = same next.host from.host

    private : Bool
    private = is_private_ip platform.is_ip next.hostname

    allowed : Bool
    allowed = matches_allowlist platform next.hostname list

-- A redirect is followed exactly where it stays on http(s), does not leave https, and does not go, on another host,
-- to a host name that the test `isPrivateIp` of the code takes for private and the list of the environment does not
-- match; every other redirect is refused. That test does not take the loopback address for private where it is written
-- as a mapped one, `[::ffff:7f00:1]`, and the entry `::1` of the list does not match the host name `[::1]`.
pub check_redirect-IsPermitted :
    (platform : Platform) (url : Text) (from : Url) (list : List Pattern) (next : Url)
    → ((check_redirect platform url from list next ≡ ok tt) ↔ IsPermitted platform from next list)
      × (is_private_ip platform.is_ip mapped_loopback ≡ false)
      × (matches_pattern platform (codes "[::1]") (ip (codes "::1")) ≡ false)
check_redirect-IsPermitted platform url from list next = (
  followed_iff platform url from list next,
  mapped_loopback_passes platform.is_ip,
  bracketed_differs platform,
)
