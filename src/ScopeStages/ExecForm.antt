-- ===== src/ScopeStages/ExecForm.antt =====
-- A RUN in exec form, whose arguments are an array, in an included file.
use dockerfile_x.Common.{
  ◌≡◌, refl, sym, ◌∙◌, true, false, List, [], ◌∷◌, Text, codes, All, same, same_iff,
}
use dockerfile_x.Errors.{ok, >>=-eq-ok}
use dockerfile_x.Packages.{Packages, Args, string, array, object}
use dockerfile_x.Instruction.{Instruction}
use dockerfile_x.ScopeStages.{
  identify_all, update_as, update_image, update_copy, update_run, update_run_args, rescope,
  rescope_all, rescope_names, scope_stages,
}

abbrev pub IsRun : Instruction → Type 0
IsRun i = same i.name (codes "RUN") ≡ true

abbrev pub HasText : Args → Type 0
HasText a = (s : Text) × (a ≡ string s)

-- A keyword that is RUN is none of the other three.
run-not_others :
    (name : Text)
    → name ≡ codes "RUN"
    → (same name (codes "FROM") ≡ false)
      × (same name (codes "COPY") ≡ false)
      × (same name (codes "ADD") ≡ false)
unfolding same
run-not_others name e = rw e (refl, refl, refl)

module _ (p : Packages) (prefix name : Text) where
  update_run_args-HasText :
      (i j : Instruction) (a : Args) → update_run_args p prefix name i a ≡ ok j → HasText a
  unfolding update_run_args
  update_run_args-HasText i j (string s) h = (s, refl)
  update_run_args-HasText i j (array l) h = cc
  update_run_args-HasText i j object h = cc

  rescope-of_run :
      (i : Instruction) → IsRun i → rescope p prefix name i ≡ update_run_args p prefix name i i.args
  unfolding rescope update_as update_image update_copy update_run
  rescope-of_run i r =
      let (f, c, a) = run-not_others i.name ((same_iff i.name _).0 r) in rw (f, f, c, a, r) refl

  rescope_all-HasText :
      (is js : List Instruction)
      → rescope_all p prefix name is ≡ ok js
      → All (λ i. IsRun i → HasText i.args) is
  unfolding rescope_all
  rescope_all-HasText [] js h = tt
  rescope_all-HasText (i ∷ is) js h =
      let (j, hj, h1) = >>=-eq-ok (rescope p prefix name i) _ h in
      let (js', hjs, h2) = >>=-eq-ok (rescope_all p prefix name is) _ h1 in
      (
        λ r. update_run_args-HasText i j i.args (sym (rescope-of_run i r) ∙ hj),
        rescope_all-HasText is js' hjs,
      )

rescope_names-HasText :
    (p : Packages) (prefix name : Text) (names : List Text) (is js : List Instruction)
    → rescope_names p prefix (name ∷ names) is ≡ ok js
    → All (λ i. IsRun i → HasText i.args) is
unfolding rescope_names
rescope_names-HasText p prefix name names is js h =
    let (ks, hk, h1) = >>=-eq-ok (rescope_all p prefix name is) _ h in
    rescope_all-HasText p prefix name is ks hk

-- Where a file that has a stage is scoped without an error, no RUN of it is in exec form: the arguments of
-- each RUN are a text. A RUN in exec form makes the pass throw.
pub scope_stages-HasText :
    (p : Packages) (is ks js : List Instruction) (name : Text) (names : List Text) (path : Text)
    → identify_all p is ≡ ok (name ∷ names, ks)
    → scope_stages p is path ≡ ok js
    → All (λ i. IsRun i → HasText i.args) ks
unfolding scope_stages
scope_stages-HasText p is ks js name names path e h =
    rescope_names-HasText p _ name names ks js (rw e at h)
