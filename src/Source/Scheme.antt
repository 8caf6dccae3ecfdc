-- ===== src/Source/Scheme.antt =====
-- src/sources/detectScheme.js, and the test of src/sources/resolveSource.js for other schemes.
use dockerfile_x.Common.{
  ℕ, Bool, false, ◌||◌, [], ◌∷◌, Text, codes, ◌==◌, if◌then◌else◌, is_some, is_upper, is_lower,
  is_digit, strip_prefix_i, drop_while,
}

pub data SourceScheme : Type 0 where
  http git oci local : SourceScheme

-- `/^p/i.test(s)` for a literal `p`, written in lower case
unfoldable pub starts_with_i : Text → Text → Bool
unfolding strip_prefix_i
starts_with_i p s = is_some (strip_prefix_i p s)

unfoldable pub detect_scheme : Text → SourceScheme
unfolding starts_with_i
detect_scheme reference =
    if starts_with_i (codes "git+") reference
    then git
    else if starts_with_i (codes "oci://") reference
    then oci
    else if starts_with_i (codes "http://") reference || starts_with_i (codes "https://") reference
    then http
    else local

abbrev pub is_letter : ℕ → Bool
is_letter c = is_upper c || is_lower c

-- [a-z0-9+.-] under the flag `i`
abbrev pub is_scheme_unit : ℕ → Bool
is_scheme_unit c = is_letter c || is_digit c || c == b'+' || c == b'.' || c == b'-'

-- /^[a-z][a-z0-9+.-]*:/i
unfoldable pub unknown_scheme : Text → Bool
unfolding drop_while
unknown_scheme [] = false
unknown_scheme (c ∷ s) =
    if is_letter c
    then elim (drop_while is_scheme_unit s) [ [] ↦ false | d ∷ _ ↦ d == b':' ]
    else false
