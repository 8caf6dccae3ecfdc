-- ===== src/ScopeStages/Kept.antt =====
-- What scoping leaves as it is.
use dockerfile_x.Common.{
  ◌≡◌, refl, subst, ◌∙◌, ap, Bool, true, false, Option, none, some, List, [], ◌∷◌, ◌++◌, Text,
  codes, if◌then◌else◌, same,
}
use dockerfile_x.Errors.{Result, ok, err, type_error, ◌>>=◌, >>=-eq-ok}
use dockerfile_x.Packages.{Packages, Args, string, array, object}
use dockerfile_x.Instruction.{Instruction, with_args}
use dockerfile_x.ScopeStages.Updates.{IsKept, Keeps, Keeps-with_args, Keeps-rescope}
use dockerfile_x.Regex.{as_match, include_from}
use dockerfile_x.ScopeStages.{
  identify, identify_all, rescope, rescope_all, rescope_names, scope_stages,
}

-- Two lists of instructions that stand for the same lines.
abbrev pub AreKept : List Instruction → List Instruction → Type 0
AreKept [] [] = Unit
AreKept [] (j ∷ js) = ⊥
AreKept (i ∷ is) [] = ⊥
AreKept (i ∷ is) (j ∷ js) = IsKept i j × AreKept is js

AreKept-refl : (is : List Instruction) → AreKept is is
AreKept-refl [] = tt
AreKept-refl (i ∷ is) = ((refl, refl), AreKept-refl is)

AreKept-trans : (is js ks : List Instruction) → AreKept is js → AreKept js ks → AreKept is ks
AreKept-trans [] [] [] a b = tt
AreKept-trans [] [] (k ∷ ks) a b = b
AreKept-trans [] (j ∷ js) ks a b = absurd a
AreKept-trans (i ∷ is) [] ks a b = absurd a
AreKept-trans (i ∷ is) (j ∷ js) [] a b = b
AreKept-trans (i ∷ is) (j ∷ js) (k ∷ ks) ((n, l), a) ((n', l'), b) =
    ((n' ∙ n, l' ∙ l), AreKept-trans is js ks a b)

result-IsKept : (i j : Instruction) (r : Result Instruction) → Keeps i r → r ≡ ok j → IsKept i j
unfolding Keeps
result-IsKept i j r h e = subst (Keeps i) e h

ok_inj {ℓ} : {A : Type ℓ} (a b : A) → ok a ≡ ok b → a ≡ b
ok_inj a b h = cc

module _ (p : Packages) where
  rescope_all-AreKept :
      (prefix name : Text) (is js : List Instruction)
      → rescope_all p prefix name is ≡ ok js
      → AreKept is js
  unfolding rescope_all
  rescope_all-AreKept prefix name [] js h = subst (AreKept []) (ok_inj [] js h) tt
  rescope_all-AreKept prefix name (i ∷ is) js h =
      let (j, hj, h1) = >>=-eq-ok (rescope p prefix name i) _ h in
      let (js', hjs, h2) = >>=-eq-ok (rescope_all p prefix name is) _ h1 in
      let e : j ∷ js' ≡ js = cc in
      subst (AreKept (i ∷ is)) e (
        result-IsKept i j _ (Keeps-rescope p prefix name i) hj,
        rescope_all-AreKept prefix name is js' hjs,
      )

  rescope_names-AreKept :
      (prefix : Text) (names : List Text) (is js : List Instruction)
      → rescope_names p prefix names is ≡ ok js
      → AreKept is js
  unfolding rescope_names
  rescope_names-AreKept prefix [] is js h = subst (AreKept is) (ok_inj is js h) (AreKept-refl is)
  rescope_names-AreKept prefix (name ∷ names) is js h =
      let (ks, hk, h1) = >>=-eq-ok (rescope_all p prefix name is) _ h in
      AreKept-trans is ks js (rescope_all-AreKept prefix name is ks hk)
        (rescope_names-AreKept prefix names ks js h1)

  -- What holds of the instruction that is identified.
  abbrev Identifies : Instruction → Result (List Text × Instruction) → Type 0
  Identifies i (ok (names, j)) = IsKept i j
  Identifies i (err e) = Unit

  identify-option :
      (i : Instruction) (args : Text) (o : Option Text)
      → Identifies i (elim o [
        | some name ↦ ok (name ∷ [], i)
        | none ↦ if include_from args then ok ([], i) else do
          j ← with_args p i (string (args ++ codes " AS final-stage"))
          ok (codes "final-stage" ∷ [], j)
      ])
  unfolding Keeps
  identify-option i args (some name) = (refl, refl)
  identify-option i args none =
      go (include_from args) (with_args p i (string (args ++ codes " AS final-stage")))
        (Keeps-with_args p i _)
    where
      go :
          (b : Bool) (r : Result Instruction)
          → Keeps i r
          → Identifies i (if b then ok ([], i) else r >>= λ j. ok (codes "final-stage" ∷ [], j))
      go true r h = (refl, refl)
      go false (ok j) h = h
      go false (err e) h = tt

  identify-args :
      (i : Instruction) (b : Bool) (a : Args)
      → Identifies i (
          if b
          then elim a [
            | string args ↦ elim (as_match args) [
              | some name ↦ ok (name ∷ [], i)
              | none ↦ if include_from args then ok ([], i) else do
                j ← with_args p i (string (args ++ codes " AS final-stage"))
                ok (codes "final-stage" ∷ [], j)
            ]
            | array _ ↦ err type_error
            | object ↦ err type_error
          ]
          else ok ([], i))
  identify-args i true (string args) = identify-option i args (as_match args)
  identify-args i true (array l) = tt
  identify-args i true object = tt
  identify-args i false a = (refl, refl)

  identify-Identifies : (i : Instruction) → Identifies i (identify p i)
  unfolding identify
  identify-Identifies i = identify-args i (same i.name (codes "FROM")) i.args

  identify_all-AreKept :
      (is js : List Instruction) (names : List Text)
      → identify_all p is ≡ ok (names, js)
      → AreKept is js
  unfolding identify_all
  identify_all-AreKept [] js names h =
      subst (AreKept []) (ap (λ x. x.1) (ok_inj ([], []) (names, js) h)) tt
  identify_all-AreKept (i ∷ is) js names h =
      let ((ns, j), hj, h1) = >>=-eq-ok (identify p i) _ h in
      let ((more, js'), hjs, h2) = >>=-eq-ok (identify_all p is) _ h1 in
      subst (AreKept (i ∷ is)) (ap (λ x. x.1) (ok_inj (ns ++ more, j ∷ js') (names, js) h2))
        (subst (Identifies i) hj (identify-Identifies i), identify_all-AreKept is js' more hjs)

-- Where the stages of a file are scoped without an error, no instruction is lost, added or moved: each
-- keeps its keyword and its line number.
pub scope_stages-AreKept :
    (p : Packages) (is js : List Instruction) (path : Text)
    → scope_stages p is path ≡ ok js
    → AreKept is js
unfolding scope_stages
scope_stages-AreKept p is js path h =
    let ((names, ks), hk, h1) = >>=-eq-ok (identify_all p is) _ h in
    AreKept-trans is ks js (identify_all-AreKept p is ks names hk)
      (rescope_names-AreKept p _ names ks js h1)
