-- ===== src/Common/Words.antt =====
-- JavaScript strings as lists of UTF-16 code units, and the methods of `String` that the program
-- calls with literal arguments.
use Prim.Native.Nat.{ℕ, ◌+◌, ◌-◌}
use Prim.Native.Char.{code}
use Prim.Native.String.{String}
use mathlib.Core.Path.{◌≡◌, refl}
use mathlib.Core.Logic.{◌↔◌}
use mathlib.Core.Bool.{Bool, true, false, ◌&&◌, ◌||◌}
use mathlib.Core.Option.{Option, none, some}
use mathlib.Core.List.{List, [], ◌∷◌, ◌++◌, map, reverse}
use native.Mathlib.Omega.{arith}
use dockerfile_x.Common.Tests.{leb, ◌==◌, if◌then◌else◌, is_some}
use dockerfile_x.Common.Lists.{any}

abbrev pub Text : Type 0
Text = List ℕ

-- The code units of a literal, which is ASCII wherever this is used.
abbrev pub codes : String → Text
codes String.[] = []
codes (String.◌∷◌ c s) = code c ∷ codes s

-- `a === b`
unfoldable pub same : Text → Text → Bool
same [] [] = true
same [] (_ ∷ _) = false
same (_ ∷ _) [] = false
same (a ∷ s) (b ∷ t) = a == b && same s t

pub same_refl : (s : Text) → same s s ≡ true
unfolding same
same_refl [] = refl
same_refl (a ∷ s) = ground (arith, same_refl s)

pub eq_of_same : (s t : Text) → same s t ≡ true → s ≡ t
unfolding same
eq_of_same [] [] h = refl
eq_of_same [] (b ∷ t) h = cc
eq_of_same (a ∷ s) [] h = cc
eq_of_same (a ∷ s) (b ∷ t) h = ground (arith, eq_of_same s t)

pub same_iff : (s t : Text) → (same s t ≡ true) ↔ (s ≡ t)
same_iff s t = (eq_of_same s t, λ e. rw e (same_refl t))

-- `list.includes(s)`
unfoldable pub includes : Text → List Text → Bool
includes s l = any (same s) l

-- What is left of `s` behind the prefix `p`.
unfoldable pub strip_prefix : Text → Text → Option Text
strip_prefix [] s = some s
strip_prefix (a ∷ p) [] = none
strip_prefix (a ∷ p) (b ∷ s) = if a == b then strip_prefix p s else none

-- `s.startsWith(p)`
unfoldable pub starts_with : Text → Text → Bool
unfolding strip_prefix
starts_with p s = is_some (strip_prefix p s)

-- `s.endsWith(p)`
unfoldable pub ends_with : Text → Text → Bool
unfolding same
ends_with p [] = same p []
ends_with p (c ∷ s) = same p (c ∷ s) || ends_with p s

-- `s.includes(p)`
unfoldable pub has_infix : Text → Text → Bool
unfolding starts_with
has_infix p [] = starts_with p []
has_infix p (c ∷ s) = starts_with p (c ∷ s) || has_infix p s

-- `s.replace(p, q)` at a string `p` and a `q` without `$`: the first occurrence.
unfoldable pub replace_first : Text → Text → Text → Text
unfolding strip_prefix
replace_first p q [] = elim (strip_prefix p []) [ none ↦ [] | some r ↦ q ++ r ]
replace_first p q (c ∷ s) =
    let later = c ∷ replace_first p q s in
    elim (strip_prefix p (c ∷ s)) [ none ↦ later | some r ↦ q ++ r ]

unfoldable pub take_while : (ℕ → Bool) → Text → Text
take_while f [] = []
take_while f (c ∷ s) = if f c then c ∷ take_while f s else []

unfoldable pub drop_while : (ℕ → Bool) → Text → Text
drop_while f [] = []
drop_while f (c ∷ s) = if f c then drop_while f s else c ∷ s

-- The class `\s` of regular expressions, which `trim` removes too.
unfoldable pub is_space : ℕ → Bool
is_space c =
    leb 9 c && leb c 13
    || c == 32
    || c == 160
    || c == 0x1680
    || leb 0x2000 c && leb c 0x200a
    || c == 0x2028
    || c == 0x2029
    || c == 0x202f
    || c == 0x205f
    || c == 0x3000
    || c == 0xfeff

-- `s.trim()`
unfoldable pub trim : Text → Text
unfolding drop_while is_space
trim s = reverse (drop_while is_space (reverse (drop_while is_space s)))

-- `list.join(sep)`
unfoldable pub join : Text → List Text → Text
join sep [] = []
join sep (s ∷ []) = s
join sep (s ∷ t ∷ l) = s ++ sep ++ join sep (t ∷ l)

abbrev pub newline : Text
newline = 10 ∷ []

abbrev pub is_upper : ℕ → Bool
is_upper c = leb b'A' c && leb c b'Z'

abbrev pub is_lower : ℕ → Bool
is_lower c = leb b'a' c && leb c b'z'

abbrev pub is_digit : ℕ → Bool
is_digit c = leb b'0' c && leb c b'9'

-- One code unit of `toLowerCase`. Of the units past ASCII only U+0130 and U+212A have a lower case
-- with an ASCII unit or another length; the others stand for themselves here.
unfoldable pub lower_unit : ℕ → Text
lower_unit c =
    if is_upper c
    then (c + 32) ∷ []
    else if c == 0x130
    then b'i' ∷ 0x307 ∷ []
    else if c == 0x212a
    then b'k' ∷ []
    else c ∷ []

-- `s.toLowerCase()`
unfoldable pub to_lower : Text → Text
unfolding lower_unit
to_lower [] = []
to_lower (c ∷ s) = lower_unit c ++ to_lower s

-- `s.toUpperCase()` of ASCII text.
unfoldable pub to_upper : Text → Text
to_upper = map (λ c. if is_lower c then c - 32 else c)

-- The equality of code units under the flag `i`, at an ASCII letter of the pattern.
abbrev pub fold_case : ℕ → ℕ
fold_case c = if is_upper c then c + 32 else c

-- `strip_prefix` under the flag `i`; the pattern is written in lower case.
unfoldable pub strip_prefix_i : Text → Text → Option Text
strip_prefix_i [] s = some s
strip_prefix_i (a ∷ p) [] = none
strip_prefix_i (a ∷ p) (b ∷ s) = if a == fold_case b then strip_prefix_i p s else none
