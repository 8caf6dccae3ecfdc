-- ===== src/Path/Parts.antt =====
-- The parts of a path, and the relative path between two lists of parts.
use mathlib.Core.List.{reverse, reverse-append}
use dockerfile_x.Common.{
  ℕ, ◌≡◌, refl, ap, Bool, true, false, List, [], ◌∷◌, ◌++◌, Text, codes, ◌==◌, any, All, All-append,
  same, eq_of_same, same_refl, starts_with, arith, Bool-cases, inl, inr, if◌then◌else◌,
}
use dockerfile_x.Common.Split.{
  split_at, split, split_from, split_from_cut, split_from_keep, unit_length,
}
use dockerfile_x.Path.{
  step_up, one_step, walk_parts, normal_parts, resolved_parts, diverge, is_absolute,
}

abbrev is_slash : ℕ → Bool
is_slash c = c == b'/'

-- A text without a slash in front.
abbrev Bare : Text → Type 0
Bare s = starts_with (codes "/") s ≡ false

-- A part of a path: a text, not empty, without a slash in front.
abbrev pub IsPart : Text → Type 0
IsPart [] = ⊥
IsPart (c ∷ s) = (c == b'/') ≡ false

bare_concat :
    (s : Text) (c : ℕ)
    → any is_slash s ≡ false
    → is_slash c ≡ false
    → any is_slash (s ++ c ∷ []) ≡ false
bare_concat [] c h k = ground arith
bare_concat (x ∷ s) c h k = ground (arith, bare_concat s c)

split_from-slash :
    (s cur : Text)
    → any is_slash cur ≡ false
    → All (λ t. any is_slash t ≡ false) (split_from (unit_length is_slash) s cur 0)
split_from-slash [] cur h = unfold split_from in (h, tt)
split_from-slash (c ∷ s) cur h = elim (Bool-cases (is_slash c)) [
  | inl e ↦ rw (split_from_cut is_slash c s cur e) (h, split_from-slash s [] refl)
  | inr e ↦
      rw (split_from_keep is_slash c s cur e)
        (split_from-slash s (cur ++ c ∷ []) (bare_concat cur c h e))
]

step_up-IsPart : (above : Bool) (l : List Text) → All IsPart l → All IsPart (step_up above l)
unfolding step_up
step_up-IsPart true [] h = (refl, tt)
step_up-IsPart false [] h = tt
step_up-IsPart true (s ∷ l) (p, h) = elim (Bool-cases (same s (codes ".."))) [
  | inl e ↦ rw e (refl, (p, h))
  | inr e ↦ rw e h
]
step_up-IsPart false (s ∷ l) (p, h) = elim (Bool-cases (same s (codes ".."))) [
  | inl e ↦ rw e (p, h)
  | inr e ↦ rw e h
]

one_step-IsPart :
    (above : Bool) (s : Text) (l : List Text)
    → any is_slash s ≡ false
    → All IsPart l
    → All IsPart (one_step above s l)
unfolding one_step
one_step-IsPart above [] l k h = h
one_step-IsPart above (c ∷ s) l k h = elim (Bool-cases (same (c ∷ s) (codes "."))) [
  | inl e ↦ rw e h
  | inr e ↦ elim (Bool-cases (same (c ∷ s) (codes ".."))) [
    | inl f ↦ rw (e, f) (step_up-IsPart above l h)
    | inr f ↦ rw (e, f) (ground arith, h)
  ]
]

walk_parts-IsPart :
    (above : Bool) (parts l : List Text)
    → All (λ t. any is_slash t ≡ false) parts
    → All IsPart l
    → All IsPart (walk_parts above parts l)
unfolding walk_parts
walk_parts-IsPart above [] l k h = h
walk_parts-IsPart above (s ∷ parts) l (p, k) h =
    walk_parts-IsPart above parts _ k (one_step-IsPart above s l p h)

reverse-All : (l : List Text) → All IsPart l → All IsPart (reverse l)
reverse-All [] h = tt
reverse-All (s ∷ l) (p, h) =
    rw (reverse-append (s ∷ []) l)
      (All-append IsPart (reverse l) (s ∷ []) (reverse-All l h) (p, tt))

normal_parts-IsPart : (above : Bool) (path : Text) → All IsPart (normal_parts above path)
unfolding normal_parts split_at split
normal_parts-IsPart above path =
    reverse-All _
      (walk_parts-IsPart above (split_at b'/' path) [] (split_from-slash path [] refl) tt)

-- The parts of a path that is resolved are parts.
pub resolved_parts-IsPart : (cwd path : Text) → All IsPart (resolved_parts cwd path)
unfolding resolved_parts
resolved_parts-IsPart cwd path =
    elim (is_absolute path)
      as (λ b.
        All IsPart
          (if b then normal_parts false path else normal_parts false (cwd ++ codes "/" ++ path))) [
            | true ↦ normal_parts-IsPart false path
            | false ↦ normal_parts-IsPart false (cwd ++ codes "/" ++ path)
          ]

-- The two lists have the same front, and what is left of them differs at once.
pub diverge_lem :
    (l m : List Text)
    → (front : List Text) × (l ≡ front ++ (diverge l m).0) × (m ≡ front ++ (diverge l m).1)
unfolding diverge
diverge_lem [] m = ([], refl, refl)
diverge_lem (s ∷ l) [] = ([], refl, refl)
diverge_lem (s ∷ l) (t ∷ m) = elim (Bool-cases (same s t)) [
  | inl e ↦
      let (front, p, q) = diverge_lem l m in
      rw e (s ∷ front, ap (◌∷◌ s) p, rw (eq_of_same s t e) (ap (◌∷◌ t) q))
  | inr e ↦ rw e ([], refl, refl)
]

-- A list against one that goes on from it.
pub diverge-append : (l rest : List Text) → diverge l (l ++ rest) ≡ ([], rest)
unfolding diverge
diverge-append [] rest = refl
diverge-append (s ∷ l) rest = rw (same_refl s) (diverge-append l rest)
