-- ===== src/ScopeStages/Declared.antt =====
-- The stages that a file declares, and the instructions that are not FROM while they are collected.
use dockerfile_x.Common.{
  ◌≡◌, refl, sym, ap, subst, true, false, some, ℕ, zero, suc, List, [], ◌∷◌, ◌++◌, Text, codes,
  get_elem?, includes, same, same_refl, arith,
}
use dockerfile_x.Common.Distinct.{includes-append}
use dockerfile_x.Regex.{as_match}
use dockerfile_x.Errors.{ok, >>=-eq-ok}
use dockerfile_x.Packages.{Packages, string}
use dockerfile_x.Instruction.{Instruction}
use dockerfile_x.ScopeStages.{identify, identify_all}

includes-append_left :
    (x : Text) (l m : List Text) → includes x l ≡ true → includes x (l ++ m) ≡ true
includes-append_left x l m h = ground (arith, includes-append x l m)

includes-append_right :
    (x : Text) (l m : List Text) → includes x m ≡ true → includes x (l ++ m) ≡ true
includes-append_right x l m h = ground (arith, includes-append x l m)

-- The FROM at the place declares the stage.
pub record Declares (x : Text) (f : Instruction) : Type 0 where
  pub args_of : Text
  pub from : same f.name (codes "FROM") ≡ true
  pub is_string : f.args ≡ string args_of
  pub alias : as_match args_of ≡ some x

module _ (p : Packages) where
  identify-declared : (x : Text) (f : Instruction) → Declares x f → identify p f ≡ ok (x ∷ [], f)
  unfolding identify
  identify-declared x f h = simp (h.from, h.is_string, h.alias)

  pub identify_all-declared :
      (x : Text) (is js : List Instruction) (names : List Text) (k : ℕ) (f : Instruction)
      → Declares x f
      → identify_all p is ≡ ok (names, js)
      → get_elem? is k ≡ some f
      → includes x names ≡ true
  unfolding identify_all
  identify_all-declared x [] js names k f h e g = cc
  identify_all-declared x (i ∷ is) js names zero f h e g =
      let ((ns, j), hj, e1) = >>=-eq-ok (identify p i) _ e in
      let ((more, js'), hjs, e2) = >>=-eq-ok (identify_all p is) _ e1 in
      let head : i ≡ f = cc in
      let made : identify p i ≡ ok (x ∷ [], f) =
        subst (λ y. identify p y ≡ ok (x ∷ [], f)) (sym head) (identify-declared x f h) in
      let ns_is : ns ≡ x ∷ [] = cc in
      let names_is : (x ∷ []) ++ more ≡ names = cc in
      subst (λ l. includes x l ≡ true) names_is
        (includes-append_left x (x ∷ []) more (unfold includes in ground (arith, same_refl x)))
  identify_all-declared x (i ∷ is) js names (suc k) f h e g =
      let ((ns, j), hj, e1) = >>=-eq-ok (identify p i) _ e in
      let ((more, js'), hjs, e2) = >>=-eq-ok (identify_all p is) _ e1 in
      let names_is : ns ++ more ≡ names = cc in
      subst (λ l. includes x l ≡ true) names_is
        (includes-append_right x ns more (identify_all-declared x is js' more k f h hjs g))

  identify-other :
      (c : Instruction) → same c.name (codes "FROM") ≡ false → identify p c ≡ ok ([], c)
  unfolding identify
  identify-other c h = rw h refl

  pub identify_all-place :
      (is js : List Instruction) (names : List Text) (k : ℕ) (c : Instruction)
      → same c.name (codes "FROM") ≡ false
      → identify_all p is ≡ ok (names, js)
      → get_elem? is k ≡ some c
      → get_elem? js k ≡ some c
  unfolding identify_all
  identify_all-place [] js names k c h e g = cc
  identify_all-place (i ∷ is) js names zero c h e g =
      let ((ns, j), hj, e1) = >>=-eq-ok (identify p i) _ e in
      let ((more, js'), hjs, e2) = >>=-eq-ok (identify_all p is) _ e1 in
      let head : i ≡ c = cc in
      let made : identify p i ≡ ok ([], c) =
        subst (λ y. identify p y ≡ ok ([], c)) (sym head) (identify-other c h) in
      let j_is : j ≡ c = cc in
      let js_is : j ∷ js' ≡ js = cc in subst (λ l. get_elem? l 0 ≡ some c) js_is (ap some j_is)
  identify_all-place (i ∷ is) js names (suc k) c h e g =
      let ((ns, j), hj, e1) = >>=-eq-ok (identify p i) _ e in
      let ((more, js'), hjs, e2) = >>=-eq-ok (identify_all p is) _ e1 in
      let js_is : j ∷ js' ≡ js = cc in
      subst (λ l. get_elem? l (suc k) ≡ some c) js_is (identify_all-place is js' more k c h hjs g)
