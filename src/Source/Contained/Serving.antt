-- ===== src/Source/Contained/Serving.antt =====
-- The files that the sources with a directory of their own serve: those below it.
use dockerfile_x.Common.{
  ◌≡◌, sym, ap, subst, ◌∙◌, Bool, true, false, Option, none, some, [], ◌∷◌, Text, if◌then◌else◌,
}
use dockerfile_x.Errors.{ok}
use dockerfile_x.Io.{Io, returns, of_result, ◌>>◌, >>=-ok}
use dockerfile_x.Path.{resolve_in}
use dockerfile_x.PostProcess.{truthy}
use dockerfile_x.Source.Contained.{assert_contained, assert_contained_real}
use dockerfile_x.Source.Contained.Below.{
  Inside, IsAdmitted, assert_contained-Inside, assert_contained_real-IsAdmitted,
}
use dockerfile_x.Source.RelativePath.{try_with_extension}
use dockerfile_x.Source.RelativePath.Extension.{try_with_extension-Hits}

pub truthy_inv : (o : Option Text) (s : Text) → truthy o ≡ some s → o ≡ some s
unfolding truthy
truthy_inv none s h = cc
truthy_inv (some []) s h = cc
truthy_inv (some (c ∷ t)) s h = h

module _ {S : Type 0} (real : Text → Io S Text) (cwd : Text) where
  -- The path of a file lies in a directory, and the check of real paths admitted it.
  pub record IsServed (dir rel : Text) (w' : S) : Type 0 where
    pub lexical : Inside cwd dir (resolve_in cwd dir rel)
    pub display : Text
    pub before : S
    pub by_links : IsAdmitted real cwd dir (resolve_in cwd dir rel) display before w'

  module _ (display dir rel : Text) where
    abbrev full : Text
    full = resolve_in cwd dir rel

    -- Behind the check of the path alone.
    pub passed-Inside :
        (v x : S) (u : Unit {0})
        → of_result (assert_contained cwd dir full display) v ≡ (ok u, x)
        → Inside cwd dir full
    unfolding of_result
    passed-Inside v x u h =
        let passed : assert_contained cwd dir full display ≡ ok tt = cc in
        (assert_contained-Inside cwd dir full display).0 passed

    -- Behind the test whether the file is there.
    pub behind_access :
        (b : Bool) (r : Text) (v w' : S)
        → Inside cwd dir full
        → (if b
              then (assert_contained_real real cwd dir full display >> returns (some rel))
              else returns none)
            v
          ≡ (ok (some r), w')
        → (r ≡ rel) × IsServed dir rel w'
    unfolding returns
    behind_access false r v w' inside h = cc
    behind_access true r v w' inside h =
        let (u, x, h0, k0) = >>=-ok (assert_contained_real real cwd dir full display) _ v h in
        let same_world : x ≡ w' = cc in
        (
          cc,
          subst (IsServed dir rel) same_world (record {
            lexical = inside;
            display = display;
            before = v;
            by_links = assert_contained_real-IsAdmitted real cwd dir full display v x h0;
          }),
        )

  -- What is found among the candidates is served, if each of them is.
  pub found-IsServed :
      (try_fn : Text → Io S (Option Text)) (dir path extension : Text) (w w' : S) (o : Option Text)
      (found : Text)
      → ((candidate r : Text) (v : S)
          → try_fn candidate v ≡ (ok (some r), w')
          → (r ≡ candidate) × IsServed dir candidate w')
      → try_with_extension try_fn path (some extension) w ≡ (ok o, w')
      → truthy o ≡ some found
      → IsServed dir found w'
  found-IsServed try_fn dir path extension w w' o found each h t =
      let (candidate, v, tried) =
        try_with_extension-Hits try_fn path (some extension) w w' found
          (h ∙ ap (λ x. (ok x, w')) (truthy_inv o found t)) in
      let (e, served) = each candidate found v tried in
      subst (λ x. IsServed dir x w') (sym e) served
