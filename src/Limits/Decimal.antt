-- ===== src/Limits/Decimal.antt =====
-- The decimal text of a number is read back as the number.
use Prim.Native.Nat.{◌/◌, ◌%◌}
use dockerfile_x.Common.{
  ℕ, zero, suc, ◌+◌, ◌*◌, ◌-◌, ◌≤◌, ◌≡◌, refl, ◌∙◌, true, false, some, [], ◌∷◌, ◌++◌, Text, ◌==◌,
  ltb, all, ap, is_digit, is_space, take_while, drop_while, arith, Bool-cases, inl, inr,
}
use dockerfile_x.Download.Address.{decimal_from, parse_int}
use dockerfile_x.Limits.{parse_number, digits, to_decimal}

decimal_from-append :
    (n c : ℕ) (s : Text) → decimal_from n (s ++ c ∷ []) ≡ decimal_from n s * 10 + (c - b'0')
unfolding decimal_from
decimal_from-append n c [] = refl
decimal_from-append n c (d ∷ s) = decimal_from-append (n * 10 + (d - b'0')) c s

-- A text of digits, and not the empty one.
abbrev pub IsNumeral : Text → Type 0
IsNumeral [] = ⊥
IsNumeral (c ∷ s) = all is_digit (c ∷ s) ≡ true

all_digits-append : (s : Text) (c : ℕ) → IsNumeral s → is_digit c ≡ true → IsNumeral (s ++ c ∷ [])
all_digits-append [] d h e = elim h [ ]
all_digits-append (c ∷ []) d h e = ground arith
all_digits-append (c ∷ d ∷ s) e h f = ground (arith, all_digits-append (d ∷ s) e)

pub digits-IsNumeral : (rounds n : ℕ) → IsNumeral (digits rounds n)
unfolding digits
digits-IsNumeral zero n = ground arith
digits-IsNumeral (suc rounds) n = elim (Bool-cases (ltb n 10)) [
  | inl e ↦ rw e (ground arith)
  | inr e ↦ rw e (
      all_digits-append (digits rounds (n / 10)) _ (digits-IsNumeral rounds (n / 10))
        (ground arith))
]

decimal_from-digits : (rounds n : ℕ) → n ≤ rounds → decimal_from 0 (digits rounds n) ≡ n
unfolding digits
decimal_from-digits zero n h = unfold decimal_from in omega arith
decimal_from-digits (suc rounds) n h = elim (Bool-cases (ltb n 10)) [
  | inl e ↦ rw e (unfold decimal_from in omega arith)
  | inr e ↦
      rw
        (
          e,
          decimal_from-append 0 (b'0' + n % 10) (digits rounds (n / 10)),
          decimal_from-digits rounds (n / 10) (ground arith),
        )
        (omega arith)
]

take_while-all : (s : Text) → all is_digit s ≡ true → take_while is_digit s ≡ s
unfolding take_while
take_while-all [] h = refl
take_while-all (c ∷ s) h = ground (arith, take_while-all s)

parse_int-of_numeral : (s : Text) → IsNumeral s → parse_int s ≡ some (decimal_from 0 s)
unfolding parse_int
parse_int-of_numeral [] h = elim h [ ]
parse_int-of_numeral (c ∷ s) h = rw (take_while-all (c ∷ s) h, parse_int) refl

parse_number-of_numeral : (s : Text) → IsNumeral s → parse_number s ≡ some (decimal_from 0 s)
unfolding parse_number drop_while is_space
parse_number-of_numeral [] h = elim h [ ]
parse_number-of_numeral (c ∷ s) h = rw (bare, plain) (parse_int-of_numeral (c ∷ s) h)
  where
    bare : is_space c ≡ false
    bare = ground arith

    plain : (c == b'+') ≡ false
    plain = ground arith

pub parse_number-to_decimal : (n : ℕ) → parse_number (to_decimal n) ≡ some n
unfolding to_decimal
parse_number-to_decimal n =
    parse_number-of_numeral (digits n n) (digits-IsNumeral n n)
    ∙ ap some (decimal_from-digits n n (omega arith))
