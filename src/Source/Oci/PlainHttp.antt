-- ===== src/Source/Oci/PlainHttp.antt =====
-- When oras talks plain HTTP.
use dockerfile_x.Common.{
  ℕ, ◌≡◌, ◌⊎◌, ◌↔◌, inl, inr, refl, ap, subst, Bool, true, false, not, Option, none, some, List, [],
  ◌∷◌, Text, codes, ◌==◌, all, same, eq_of_same, take_while, arith, Bool-cases,
}
use dockerfile_x.Errors.{Thrown, Result, ok, err}
use dockerfile_x.Io.{Io, attempt, throws, rescue}
use dockerfile_x.Source.Oci.Registry.{
  registry_host, is_local_registry, is_forced, should_use_plain_http,
  should_attempt_plain_http_fallback, is_plain_http_mismatch, fallback, http_args, run_oras,
}

abbrev no_colon : ℕ → Bool
no_colon c = not (c == b':')

all-take_while : (s : Text) → all no_colon (take_while no_colon s) ≡ true
unfolding take_while
all-take_while [] = refl
all-take_while (c ∷ s) = elim (Bool-cases (no_colon c)) [
  | inl e ↦ rw e (rw e (all-take_while s))
  | inr e ↦ rw e refl
]

-- A host has no colon, so it is not an IPv6 address.
not_ipv6 : (registry : Text) → same (registry_host registry) (codes "[::1]") ≡ false
unfolding registry_host
not_ipv6 registry = elim (Bool-cases (same (registry_host registry) (codes "[::1]"))) [
  | inl e ↦
      let h : all no_colon (codes "[::1]") ≡ true =
        subst (λ s. all no_colon s ≡ true) (eq_of_same (registry_host registry) (codes "[::1]") e)
          (all-take_while registry) in
      absurd (ground arith)
  | inr e ↦ e
]

-- The reasons for plain HTTP.
abbrev pub Reason : Option Text → Text → Type 0
Reason variable registry =
    (variable ≡ some (codes "true"))
    ⊎ ((registry_host registry ≡ codes "127.0.0.1") ⊎ (registry_host registry ≡ codes "localhost"))

is_local_registry-host :
    (registry : Text)
    → is_local_registry registry ≡ true
    → (registry_host registry ≡ codes "127.0.0.1") ⊎ (registry_host registry ≡ codes "localhost")
unfolding is_local_registry
is_local_registry-host registry h =
    elim (Bool-cases (same (registry_host registry) (codes "127.0.0.1"))) [
      | inl e ↦ inl (eq_of_same _ _ e)
      | inr e ↦ inr (eq_of_same _ _ (ground (arith, not_ipv6 registry)))
    ]

local_name :
    (registry : Text)
    → (registry_host registry ≡ codes "127.0.0.1") ⊎ (registry_host registry ≡ codes "localhost")
    → is_local_registry registry ≡ true
unfolding is_local_registry
local_name registry (inl e) = rw e refl
local_name registry (inr e) = rw e refl

forced_by : (variable : Option Text) → is_forced variable ≡ true → variable ≡ some (codes "true")
unfolding is_forced
forced_by none h = cc
forced_by (some value) h = ap some (eq_of_same value (codes "true") h)

should_use_plain_http-Reason :
    (variable : Option Text) (registry : Text)
    → (should_use_plain_http variable registry ≡ true) ↔ Reason variable registry
unfolding should_use_plain_http is_forced
should_use_plain_http-Reason variable registry = (
  λ h. elim (Bool-cases (is_forced variable)) [
    | inl e ↦ inl (forced_by variable e)
    | inr e ↦ inr (is_local_registry-host registry (ground arith))
  ],
  λ r. elim r [
    | inl e ↦ rw e refl
    | inr l ↦ elim (Bool-cases (is_forced variable)) [
      | inl e ↦ rw e refl
      | inr e ↦ rw e (local_name registry l)
    ]
  ],
)

-- The two tests are one, so there is nothing to fall back to.
no_fallback :
    (variable : Option Text) (registry : Text)
    → should_use_plain_http variable registry ≡ false
    → should_attempt_plain_http_fallback variable registry ≡ false
unfolding should_use_plain_http should_attempt_plain_http_fallback
no_fallback variable registry h = h

module _ {W : Type 0} (spawn : List Text → Io W Text) (variable : Option Text)
    (registry : Text) where
  never :
      (command : List Text → List Text) (b : Bool) (e : Thrown) (w : W)
      → should_use_plain_http variable registry ≡ b
      → fallback spawn variable registry command b e w ≡ (err e, w)
  unfolding fallback throws
  never command true e w h = refl
  never command false e w h =
      rw (no_fallback variable registry h)
        (elim (Bool-cases (is_plain_http_mismatch e)) [ inl k ↦ rw k refl | inr k ↦ rw k refl ])

  once :
      (command : List Text → List Text) (r : Result Text × W)
      → rescue
          (fallback spawn variable registry command (should_use_plain_http variable registry))
          r
        ≡ r
  once command (ok s, w) = refl
  once command (err e, w) = never command _ e w refl

  -- oras is run once, whatever it answers. The flag for plain HTTP is given exactly if the variable is `true` or the
  -- registry's host is 127.0.0.1 or localhost.
  pub run_oras-once :
      (command : List Text → List Text) (w : W)
      → (run_oras spawn variable registry command w
          ≡ spawn (command (http_args (should_use_plain_http variable registry))) w)
        × ((should_use_plain_http variable registry ≡ true) ↔ Reason variable registry)
  unfolding run_oras attempt
  run_oras-once command w = (once command _, should_use_plain_http-Reason variable registry)
