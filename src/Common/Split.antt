-- ===== src/Common/Split.antt =====
-- `split` at a regular expression, given by the length of its match at the head of a text.
use dockerfile_x.Common.{
  ℕ, zero, suc, arith, ◌≡◌, refl, sym, ap, any, append_assoc, append-nil, Bool, true, false, List,
  [], ◌∷◌, ◌++◌, Text, codes, ◌==◌, is_space, if◌then◌else◌,
}

-- The part so far stands in `cur`; the last argument counts the units that are left of a match.
unfoldable pub split_from : (Text → ℕ) → Text → Text → ℕ → List Text
split_from len [] cur skip = cur ∷ []
split_from len (c ∷ s) cur (suc skip) = split_from len s cur skip
split_from len (c ∷ s) cur zero = elim (len (c ∷ s)) [
  | zero ↦ split_from len s (cur ++ c ∷ []) zero
  | suc skip ↦ cur ∷ split_from len s [] skip
]

-- `s.split(re)`, where `re` matches the first `len t` units of `t`, and nothing if `len t` is 0.
unfoldable pub split : (Text → ℕ) → Text → List Text
unfolding split_from
split len s = split_from len s [] 0

-- The length of the match of a class of code units.
abbrev pub unit_length : (ℕ → Bool) → Text → ℕ
unit_length f [] = 0
unit_length f (c ∷ _) = if f c then 1 else 0

module _ (f : ℕ → Bool) (c : ℕ) (s cur : Text) where
  pub split_from_cut :
      f c ≡ true
      → split_from (unit_length f) (c ∷ s) cur 0 ≡ cur ∷ split_from (unit_length f) s [] 0
  unfolding split_from
  split_from_cut h = rw (h, split_from)

  pub split_from_keep :
      f c ≡ false
      → split_from (unit_length f) (c ∷ s) cur 0 ≡ split_from (unit_length f) s (cur ++ c ∷ []) 0
  unfolding split_from
  split_from_keep h = rw (h, split_from)

module _ (len : Text → ℕ) (c : ℕ) (s cur : Text) where
  pub split_from_keep_at :
      len (c ∷ s) ≡ 0 → split_from len (c ∷ s) cur 0 ≡ split_from len s (cur ++ c ∷ []) 0
  unfolding split_from
  split_from_keep_at h = rw (h, split_from) refl

  pub split_from_cut_at :
      (n : ℕ) → len (c ∷ s) ≡ suc n → split_from len (c ∷ s) cur 0 ≡ cur ∷ split_from len s [] n
  unfolding split_from
  split_from_cut_at n h = rw (h, split_from) refl

-- A text in which no unit is a separator is one part.
pub split_from_whole :
    (f : ℕ → Bool) (s cur : Text)
    → any f s ≡ false
    → split_from (unit_length f) s cur 0 ≡ (cur ++ s) ∷ []
split_from_whole f [] cur h = unfold split_from in ap (λ x. x ∷ []) (sym (append-nil cur))
split_from_whole f (c ∷ s) cur h =
    rw
      (
        split_from_keep f c s cur (ground arith),
        split_from_whole f s (cur ++ c ∷ []) (ground arith),
        append_assoc cur (c ∷ []) s,
      )
      refl

-- `s.split("x")` for one code unit.
unfoldable pub split_at : ℕ → Text → List Text
unfolding split
split_at sep = split (unit_length (λ c. c == sep))

unfoldable pub newline_length : Text → ℕ
newline_length [] = 0
newline_length (c ∷ []) = if c == 10 then 1 else 0
newline_length (c ∷ d ∷ _) =
    if c == 10 then 1 else if c == 13 then (if d == 10 then 2 else 0) else 0

-- `s.split(/\r?\n/)`
unfoldable pub split_lines : Text → List Text
unfolding split newline_length
split_lines = split newline_length

-- `s.split(/\s+/)`: the length of the run of white space at the head.
unfoldable pub space_length : Text → ℕ
unfolding is_space
space_length [] = 0
space_length (c ∷ s) = let n = space_length s in if is_space c then suc n else 0

pub space_length_of_space :
    (c : ℕ) (s : Text) → is_space c ≡ true → space_length (c ∷ s) ≡ suc (space_length s)
unfolding space_length
space_length_of_space c s h = rw (h, space_length) refl

pub space_length_of_other : (c : ℕ) (s : Text) → is_space c ≡ false → space_length (c ∷ s) ≡ 0
unfolding space_length
space_length_of_other c s h = rw (h, space_length) refl

unfoldable pub split_spaces : Text → List Text
unfolding split space_length
split_spaces = split space_length

lines_of_two : split_lines (codes "ab\r\ncd\n") ≡ codes "ab" ∷ codes "cd" ∷ [] ∷ []
unfolding split_lines
lines_of_two = refl
