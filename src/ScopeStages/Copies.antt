-- ===== src/ScopeStages/Copies.antt =====
-- What scoping does to a COPY or ADD that names a stage of the file.
use dockerfile_x.Common.{
  ◌≡◌, ap, subst, true, false, some, ℕ, zero, suc, List, [], ◌∷◌, ◌++◌, Text, codes, get_elem?,
  includes, All, same, same_iff, Bool-cases, inl, inr, arith,
}
use dockerfile_x.Errors.{ok, >>=-eq-ok}
use dockerfile_x.Packages.{Packages, array}
use dockerfile_x.Instruction.{Instruction}
use dockerfile_x.Names.{generate_file_path_slug}
use dockerfile_x.ScopeStages.Kept.{AreKept, scope_stages-AreKept}
use dockerfile_x.ScopeStages.{
  replace_arg, identify_all, scoped_name, rescope, rescope_all, rescope_names, scope_stages,
}
use dockerfile_x.ScopeStages.Reference.{
  from_argument, IsPlain, replace_arg-other, replace_arg-found, IsCopy, rescope_other,
  rescope_found,
}
use dockerfile_x.ScopeStages.Declared.{Declares, identify_all-declared, identify_all-place}

module _ (p : Packages) (prefix : Text) where
  rescope_all-place :
      (m : Text) (is js : List Instruction) (k : ℕ) (c d : Instruction)
      → rescope_all p prefix m is ≡ ok js
      → get_elem? is k ≡ some c
      → rescope p prefix m c ≡ ok d
      → get_elem? js k ≡ some d
  unfolding rescope_all
  rescope_all-place m [] js k c d h g r = cc
  rescope_all-place m (i ∷ is) js zero c d h g r =
      let (j, hj, h1) = >>=-eq-ok (rescope p prefix m i) _ h in
      let (js', hjs, h2) = >>=-eq-ok (rescope_all p prefix m is) _ h1 in
      let same_head : i ≡ c = cc in
      let e : j ∷ js' ≡ js = cc in
      let made : rescope p prefix m i ≡ ok d = rw same_head r in
      let head : j ≡ d = cc in subst (λ l. get_elem? l 0 ≡ some d) e (ap some head)
  rescope_all-place m (i ∷ is) js (suc k) c d h g r =
      let (j, hj, h1) = >>=-eq-ok (rescope p prefix m i) _ h in
      let (js', hjs, h2) = >>=-eq-ok (rescope_all p prefix m is) _ h1 in
      let e : j ∷ js' ≡ js = cc in
      subst (λ l. get_elem? l (suc k) ≡ some d) e (rescope_all-place m is js' k c d hjs g r)

  module _ (l r : List Text) (hl : All IsPlain l) (hr : All IsPlain r) where
    -- A stage that none of the names names.
    unnamed_kept :
        (x : Text) (names : List Text) (is js : List Instruction) (k : ℕ) (c : Instruction)
        → IsCopy c
        → c.args ≡ array (l ++ from_argument x ∷ r)
        → includes x names ≡ false
        → rescope_names p prefix names is ≡ ok js
        → get_elem? is k ≡ some c
        → get_elem? js k ≡ some c
    unfolding rescope_names includes
    unnamed_kept x [] is js k c h a n e g = cc
    unnamed_kept x (m ∷ names) is js k c h a n e g =
        let (is', hi, e1) = >>=-eq-ok (rescope_all p prefix m is) _ e in
        let d : same x m ≡ false = ground arith in
        let n' : includes x names ≡ false = ground arith in
        let kept =
          rescope_other p prefix m c h (l ++ from_argument x ∷ r) a
            (replace_arg-other m x _ l r hl hr d) in
        unnamed_kept x names is' js k c h a n' e1 (rescope_all-place m is is' k c c hi g kept)

    named_scoped :
        (x : Text) (names : List Text) (is js : List Instruction) (k : ℕ) (c : Instruction)
        → IsCopy c
        → c.args ≡ array (l ++ from_argument x ∷ r)
        → includes x names ≡ true
        → includes (scoped_name p prefix x) names ≡ false
        → rescope_names p prefix names is ≡ ok js
        → get_elem? is k ≡ some c
        → (d : Instruction) × (get_elem? js k ≡ some d)
          × IsCopy d
          × (d.args ≡ array (l ++ from_argument (scoped_name p prefix x) ∷ r))
    unfolding rescope_names includes
    named_scoped x [] is js k c h a n f e g = cc
    named_scoped x (m ∷ names) is js k c h a n f e g =
        let (is', hi, e1) = >>=-eq-ok (rescope_all p prefix m is) _ e in
        let f' : includes (scoped_name p prefix x) names ≡ false = ground arith in
        elim (Bool-cases (same x m)) [
          | inl s ↦
              let x_is : x ≡ m = (same_iff x m).0 s in
              let found : replace_arg (from_argument m) (from_argument (scoped_name p prefix m))
                    (l ++ from_argument x ∷ r)
                  ≡ some (l ++ from_argument (scoped_name p prefix x) ∷ r) =
                subst
                  (λ y.
                    replace_arg (from_argument y) (from_argument (scoped_name p prefix y))
                      (l ++ from_argument x ∷ r)
                    ≡ some (l ++ from_argument (scoped_name p prefix x) ∷ r))
                  x_is (replace_arg-found x _ l r hl) in
              let (d, made, copy, is_array) = rescope_found p prefix m c _ _ h a found in
              (
                d,
                unnamed_kept (scoped_name p prefix x) names is' js k d copy is_array f' e1
                    (rescope_all-place m is is' k c d hi g made),
                copy,
                is_array,
              )
          | inr s ↦
              let n' : includes x names ≡ true = ground arith in
              let kept =
                rescope_other p prefix m c h (l ++ from_argument x ∷ r) a
                  (replace_arg-other m x _ l r hl hr s) in
              named_scoped x names is' js k c h a n' f' e1
                (rescope_all-place m is is' k c c hi g kept)
        ]

-- Where the stages of a file are scoped without an error, no instruction is lost, added or moved, and each keeps its
-- keyword and its line number. A COPY or ADD with an array of arguments, of which one alone is a `--from=`, then names
-- the stage by the slug of the file and its name, if some FROM of the file declares the stage; its other arguments
-- stay. No stage of the file may be named like that already.
pub scope_stages-scoped_copy :
    (p : Packages) (is js named : List Instruction) (path x : Text) (names l r : List Text)
    (k q : ℕ) (c f : Instruction)
    → scope_stages p is path ≡ ok js
    → get_elem? is q ≡ some f
    → Declares x f
    → get_elem? is k ≡ some c
    → IsCopy c
    → c.args ≡ array (l ++ from_argument x ∷ r)
    → All IsPlain l
    → All IsPlain r
    → identify_all p is ≡ ok (names, named)
    → includes (generate_file_path_slug p path ++ (codes "--" ++ x)) names ≡ false
    → AreKept is js
      × ((d : Instruction) × (get_elem? js k ≡ some d)
          × (d.args
              ≡ array
                  (l ++ from_argument (generate_file_path_slug p path ++ (codes "--" ++ x)) ∷ r)))
unfolding scope_stages
scope_stages-scoped_copy p is js named path x names l r k q c f h at_q declares at_k copy a hl hr e
      n =
    let ((names', named'), e', h1) = >>=-eq-ok (identify_all p is) _ h in
    let same_names : names' ≡ names = cc in
    let (d, there, is_copy, scoped) =
      named_scoped p (generate_file_path_slug p path) l r hl hr x names' named' js k c copy a
        (identify_all-declared p x is named' names' q f declares e' at_q) (rw same_names n) h1
        (identify_all-place p is named' names' k c copy.not_from e' at_k) in
    (scope_stages-AreKept p is js path h, (d, there, scoped))
