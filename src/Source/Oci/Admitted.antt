-- ===== src/Source/Oci/Admitted.antt =====
-- The files of an artifact that are read.
use dockerfile_x.Common.{◌≡◌, subst, ◌∙◌, Option, none, some, Text}
use dockerfile_x.Errors.{ok}
use dockerfile_x.Io.{Io, returns, throws, of_result, >>=-ok}
use dockerfile_x.Path.{resolve_in}
use dockerfile_x.PostProcess.{truthy}
use dockerfile_x.Source.Contained.{assert_contained}
use dockerfile_x.Source.RelativePath.{try_with_extension}
use dockerfile_x.Source.Contained.Serving.{IsServed, passed-Inside, behind_access, found-IsServed}
use dockerfile_x.Source.Oci.{OciSource, oci_key, ident}
use dockerfile_x.Source.Oci.Artifact.{ensure_artifact}
use dockerfile_x.Source.Oci.Fetch.{Host, OciState, outside}
use dockerfile_x.Source.Oci.Read.{
  try_path, locate, resolve_file, or_not_found, pinned, is_accessible,
}

module _ {W : Type 0} (host : Host W) where
  abbrev pub real : Text → Io (OciState host) Text
  real path = outside host (host.real_path path)

  try_path-IsServed :
      (s : OciSource) (dir rel r : Text) (v w' : OciState host)
      → try_path host s dir rel v ≡ (ok (some r), w')
      → (r ≡ rel) × IsServed real host.cwd dir rel w'
  unfolding try_path
  try_path-IsServed s dir rel r v w' h =
      let full = resolve_in host.cwd dir rel in
      let (u, x, h0, k0) =
        >>=-ok (of_result (assert_contained host.cwd dir full (oci_key s))) _ v h in
      let (b, y, h1, k1) = >>=-ok (is_accessible host full) _ x k0 in
      behind_access real host.cwd (oci_key s) dir rel b r y w'
        (passed-Inside real host.cwd (oci_key s) dir rel v x u h0) k1

  or_not_found-some :
      (s : OciSource) (o : Option Text) (rel : Text) (v w' : OciState host)
      → or_not_found host s o v ≡ (ok rel, w')
      → (o ≡ some rel) × (v ≡ w')
  unfolding or_not_found throws returns
  or_not_found-some s none rel v w' h = cc
  or_not_found-some s (some r) rel v w' h = (cc, cc)

  same_result :
      (p q : Text × Text × OciSource) (v w' : OciState host)
      → returns {W = OciState host} p v ≡ (ok q, w')
      → (p ≡ q) × (v ≡ w')
  unfolding returns
  same_result p q v w' h = (cc, cc)

  locate-IsServed :
      (s s' : OciSource) (d dir rel : Text) (w w' : OciState host)
      → locate host s d w ≡ (ok (dir, rel, s'), w')
      → IsServed real host.cwd dir rel w'
  unfolding locate
  locate-IsServed s s' d dir rel w w' h =
      let (resolved, y, h1, k1) =
        >>=-ok (try_with_extension (try_path host s d) s.file_path (some s.default_extension)) _ w
          h in
      let (found, z, h2, k2) = >>=-ok (or_not_found host s (truthy resolved)) _ y k1 in
      let (hit, stays) = or_not_found-some s (truthy resolved) found y z h2 in
      let (same_file, stays') = same_result _ (dir, rel, s') z w' k2 in
      let served =
        found-IsServed real host.cwd (try_path host s d) d s.file_path s.default_extension w y
          resolved found (λ candidate r v tried. try_path-IsServed s d candidate r v y tried) h1
          hit in
      subst (λ x. IsServed real host.cwd x.0 x.1 w') same_file
        (subst (IsServed real host.cwd d found) (stays ∙ stays') served)

  -- Where the file of a source is found in its artifact, its path lies in the directory of the artifact, and the
  -- check of real paths, made last, admitted it.
  pub resolve_file-IsServed :
      (s s' : OciSource) (dir rel : Text) (w w' : OciState host)
      → resolve_file host s w ≡ (ok (dir, rel, s'), w')
      → IsServed real host.cwd dir rel w'
  unfolding resolve_file
  resolve_file-IsServed s s' dir rel w w' h =
      let (entry, x, h0, k0) =
        >>=-ok (ensure_artifact host s.registry s.repo (ident (truthy s.digest) s.tag)) _ w h in
      locate-IsServed (pinned host (truthy entry.digest) s) s' entry.dir dir rel x w' k0
