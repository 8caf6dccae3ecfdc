-- ===== src/Download/Settings/Checked.antt =====
-- The bounds of the limits, whatever the environment holds.
use Prim.Native.Nat.{◌^◌}
use dockerfile_x.Common.{
  ◌≡◌, refl, ℕ, ◌*◌, ◌<◌, true, false, ◌||◌, Option, none, some, [], ◌∷◌, Text, leb, arith,
  Bool-cases, inl, inr,
}
use dockerfile_x.Spawn.{infinity}
use dockerfile_x.Download.Settings.{
  Amount, Number, nan, infinite, finite, whole, rounds_to_infinity, rounds_to_zero, positive_or,
  natural_or, to_number, get_http_timeout_ms, get_max_http_bytes, get_max_redirects,
}

-- A float of this amount is finite.
pub record IsFinite (a : Amount) : Type 0 where
  pub below : a.mantissa * 10 ^ a.ups < infinity * 10 ^ a.downs

-- A float of this amount is finite and more than 0.
pub record IsPositive (a : Amount) : Type 0 where
  pub is_finite : IsFinite a
  pub above : 10 ^ a.downs < a.mantissa * 10 ^ a.ups * 2 ^ 1075

lt_of_not-leb : (a b : ℕ) → leb a b ≡ false → b < a
lt_of_not-leb a b h = ground arith

rounds_to_infinity-IsFinite : (a : Amount) → rounds_to_infinity a ≡ false → IsFinite a
unfolding rounds_to_infinity
rounds_to_infinity-IsFinite a h = record { below = lt_of_not-leb _ _ h }

rounds_to_zero-IsPositive :
    (a : Amount) → (rounds_to_infinity a || rounds_to_zero a) ≡ false → IsPositive a
unfolding rounds_to_zero
rounds_to_zero-IsPositive a h = elim (Bool-cases (rounds_to_infinity a)) [
  | inl e ↦ cc (rw e at h)
  | inr e ↦ record {
    is_finite = rounds_to_infinity-IsFinite a e;
    above = lt_of_not-leb _ _ (rw e at h);
  }
]

positive_or-IsPositive :
    (default : ℕ) (n : Number) → IsPositive (whole default) → IsPositive (positive_or default n)
unfolding positive_or
positive_or-IsPositive default nan h = h
positive_or-IsPositive default (infinite negative) h = h
positive_or-IsPositive default (finite true a) h = h
positive_or-IsPositive default (finite false a) h =
    elim (Bool-cases (rounds_to_infinity a || rounds_to_zero a)) [
      | inl e ↦ rw e h
      | inr e ↦ rw e (rounds_to_zero-IsPositive a e)
    ]

natural_or-IsFinite :
    (default : ℕ) (n : Number)
    → IsFinite (whole default)
    → IsFinite (whole 0)
    → IsFinite (natural_or default n)
unfolding natural_or
natural_or-IsFinite default nan h z = h
natural_or-IsFinite default (infinite negative) h z = h
natural_or-IsFinite default (finite false a) h z = elim (Bool-cases (rounds_to_infinity a)) [
  | inl e ↦ rw e h
  | inr e ↦ rw e (rounds_to_infinity-IsFinite a e)
]
natural_or-IsFinite default (finite true a) h z = elim (Bool-cases (rounds_to_zero a)) [
  | inl e ↦ rw e z
  | inr e ↦ rw e h
]

whole-IsFinite : (n : ℕ) → rounds_to_infinity (whole n) ≡ false → IsFinite (whole n)
whole-IsFinite n h = rounds_to_infinity-IsFinite (whole n) h

default_timeout-IsPositive : IsPositive (whole 30000)
unfolding rounds_to_infinity rounds_to_zero
default_timeout-IsPositive = rounds_to_zero-IsPositive (whole 30000) refl

default_bytes-IsPositive : IsPositive (whole 1048576)
unfolding rounds_to_infinity rounds_to_zero
default_bytes-IsPositive = rounds_to_zero-IsPositive (whole 1048576) refl

default_redirects-IsFinite : IsFinite (whole 5)
unfolding rounds_to_infinity
default_redirects-IsFinite = rounds_to_infinity-IsFinite (whole 5) refl

no_redirects-IsFinite : IsFinite (whole 0)
unfolding rounds_to_infinity
no_redirects-IsFinite = rounds_to_infinity-IsFinite (whole 0) refl

pub get_http_timeout_ms-IsPositive :
    (variable : Option Text) → IsPositive (get_http_timeout_ms variable)
unfolding get_http_timeout_ms
get_http_timeout_ms-IsPositive none = default_timeout-IsPositive
get_http_timeout_ms-IsPositive (some []) = default_timeout-IsPositive
get_http_timeout_ms-IsPositive (some (c ∷ raw)) =
    positive_or-IsPositive _ (to_number (c ∷ raw)) default_timeout-IsPositive

pub get_max_http_bytes-IsPositive :
    (variable : Option Text) → IsPositive (get_max_http_bytes variable)
unfolding get_max_http_bytes
get_max_http_bytes-IsPositive none = default_bytes-IsPositive
get_max_http_bytes-IsPositive (some []) = default_bytes-IsPositive
get_max_http_bytes-IsPositive (some (c ∷ raw)) =
    positive_or-IsPositive _ (to_number (c ∷ raw)) default_bytes-IsPositive

pub get_max_redirects-IsFinite : (variable : Option Text) → IsFinite (get_max_redirects variable)
unfolding get_max_redirects
get_max_redirects-IsFinite none = default_redirects-IsFinite
get_max_redirects-IsFinite (some []) = default_redirects-IsFinite
get_max_redirects-IsFinite (some (c ∷ raw)) =
    natural_or-IsFinite _ (to_number (c ∷ raw)) default_redirects-IsFinite no_redirects-IsFinite
