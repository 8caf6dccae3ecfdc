-- ===== src/Common/Cut.antt =====
-- A text cut at the first `c`: two `slice`s at an `indexOf`.
use dockerfile_x.Common.{
  ℕ, ◌≡◌, refl, sym, subst, ap, true, false, Option, none, some, [], ◌∷◌, ◌++◌, Text, ◌==◌, any,
  if◌then◌else◌, arith, Bool-cases, inl, inr,
}

-- The text before the first `c`, and the text behind it: `indexOf` and two `slice`s.
abbrev pub push_first : ℕ → Option (Text × Text) → Option (Text × Text)
push_first x none = none
push_first x (some (before, behind)) = some (x ∷ before, behind)

unfoldable pub cut : ℕ → Text → Option (Text × Text)
cut c [] = none
cut c (x ∷ s) = let later = push_first x (cut c s) in if x == c then some ([], s) else later

-- A text without the unit.
abbrev pub Lacks : ℕ → Text → Type 0
Lacks c s = any (λ x. x == c) s ≡ false

pub cut-append : (c : ℕ) (a b : Text) → Lacks c a → cut c (a ++ c ∷ b) ≡ some (a, b)
unfolding cut
cut-append c [] b h = ground arith
cut-append c (x ∷ a) b h = rw (not_here, cut-append c a b (ground arith)) refl
  where
    not_here : (x == c) ≡ false
    not_here = ground arith

pub push_first-some :
    (x : ℕ) (o : Option (Text × Text)) {a b : Text}
    → push_first x o ≡ some (a, b)
    → (rest : Text) × (o ≡ some (rest, b)) × (a ≡ x ∷ rest)
push_first-some x none h = cc
push_first-some x (some (rest, b)) h = (rest, cc, cc)

first_of_pair : (p q : Text × Text) → some p ≡ some q → p.0 ≡ q.0
first_of_pair p q h = cc

pub cut-Lacks : (c : ℕ) (s : Text) (a b : Text) → cut c s ≡ some (a, b) → Lacks c a
unfolding cut
cut-Lacks c [] a b h = cc
cut-Lacks c (x ∷ s) a b h = elim (Bool-cases (x == c)) [
  | inl e ↦
      let k : some ([], s) ≡ some (a, b) = rw e at h in
      subst (Lacks c) (first_of_pair ([], s) (a, b) k) refl
  | inr e ↦
      let (rest, later, whole) = push_first-some x (cut c s) (rw e at h) in
      subst (Lacks c) (sym whole) (rw (e, cut-Lacks c s rest b later) refl)
]

pub pair_at : (p q : Text × Text) → some p ≡ some q → (p.0 ≡ q.0) × (p.1 ≡ q.1)
pair_at p q h = (cc, cc)

eq_of_test : (x c : ℕ) → (x == c) ≡ true → x ≡ c
eq_of_test x c h = ground arith

-- A cut in front.
pub cut_here :
    (x c : ℕ) (s a b : Text)
    → (x == c) ≡ true
    → ◌≡◌ {A = Option (Text × Text)} (some ([], s)) (some (a, b))
    → x ∷ s ≡ a ++ c ∷ b
cut_here x c s a b e k =
    let (front, back) = pair_at ([], s) (a, b) k in
    let unit : x ≡ c = eq_of_test x c e in rw (← front, ← back) (ap (λ y. y ∷ s) unit)

-- The two parts and the unit make up the text.
pub cut-whole : (c : ℕ) (s a b : Text) → cut c s ≡ some (a, b) → s ≡ a ++ c ∷ b
unfolding cut
cut-whole c [] a b h = cc
cut-whole c (x ∷ s) a b h = elim (Bool-cases (x == c)) [
  | inl e ↦ cut_here x c s a b e (rw e at h)
  | inr e ↦
      let (rest, later, whole) = push_first-some x (cut c s) (rw e at h) in
      rw whole (ap (◌∷◌ x) (cut-whole c s rest b later))
]
