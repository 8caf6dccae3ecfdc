-- ===== src/Common/Firsts.antt =====
-- The texts of a list, each where it stands first: by a removal of all that are equal behind it, and as a set
-- that keeps the order of insertion.
use dockerfile_x.Common.{
  ◌≡◌, refl, sym, ◌∙◌, ap, true, List, [], ◌∷◌, ◌++◌, append_assoc, append-nil, Text, includes,
  same, same_iff, if◌then◌else◌, Bool-cases, inl, inr, arith,
}
use dockerfile_x.Common.Distinct.{includes-concat}

-- The list without the texts that are equal to `k`.
unfoldable pub without : Text → List Text → List Text
unfolding same
without k [] = []
without k (s ∷ l) = let rest = without k l in if same s k then rest else s ∷ rest

unfoldable pub firsts : List Text → List Text
unfolding without
firsts [] = []
firsts (s ∷ l) = s ∷ without s (firsts l)

-- The list without the texts of `seen`.
unfoldable unseen : List Text → List Text → List Text
unfolding includes
unseen seen [] = []
unseen seen (s ∷ l) = let rest = unseen seen l in if includes s seen then rest else s ∷ rest

-- The set with the texts of `l` inserted one after the other.
unfoldable pub inserted : List Text → List Text → List Text
unfolding includes
inserted seen [] = seen
inserted seen (s ∷ l) = inserted (if includes s seen then seen else seen ++ s ∷ []) l

unseen-nil : (l : List Text) → unseen [] l ≡ l
unfolding unseen includes
unseen-nil [] = refl
unseen-nil (s ∷ l) = ap (λ r. s ∷ r) (unseen-nil l)

unseen-without :
    (s : Text) (seen l : List Text)
    → includes s seen ≡ true
    → unseen seen (without s l) ≡ unseen seen l
unfolding unseen without
unseen-without s seen [] h = refl
unseen-without s seen (t ∷ l) h = ground (arith, unseen-without s seen l h, same_iff t s)

unseen-concat :
    (s : Text) (seen l : List Text) → unseen (seen ++ s ∷ []) l ≡ unseen seen (without s l)
unfolding unseen without
unseen-concat s seen [] = refl
unseen-concat s seen (t ∷ l) = ground (arith, unseen-concat s seen l, includes-concat t s seen)

inserted-unseen : (l seen : List Text) → inserted seen l ≡ seen ++ unseen seen (firsts l)
unfolding inserted unseen firsts
inserted-unseen [] seen = sym (append-nil seen)
inserted-unseen (s ∷ l) seen = elim (Bool-cases (includes s seen)) [
  | inl e ↦ rw (e, unseen-without s seen (firsts l) e) (inserted-unseen l seen)
  | inr e ↦
      rw (e, inserted-unseen l (seen ++ s ∷ []), unseen-concat s seen (firsts l))
        (append_assoc seen (s ∷ []) _)
]

-- The set of the texts of a list has each where it stands first.
pub inserted-firsts : (l : List Text) → inserted [] l ≡ firsts l
inserted-firsts l = inserted-unseen l [] ∙ unseen-nil (firsts l)
