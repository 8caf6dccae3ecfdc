-- ===== src/Source/Git/Served.antt =====
-- The files of a clone that are read.
use dockerfile_x.Common.{◌≡◌, subst, ◌∙◌, Option, none, some, Text}
use dockerfile_x.Errors.{ok}
use dockerfile_x.Io.{Io, returns, throws, of_result, >>=-ok}
use dockerfile_x.Path.{resolve_in}
use dockerfile_x.PostProcess.{truthy}
use dockerfile_x.Source.Contained.{assert_contained}
use dockerfile_x.Source.Contained.Serving.{IsServed, passed-Inside, behind_access, found-IsServed}
use dockerfile_x.Source.RelativePath.{try_with_extension}
use dockerfile_x.Source.Git.{GitSource, git_display_path}
use dockerfile_x.Source.Git.Fetch.{Clone, GitHost, GitState, beyond, clone_key, ensure_repo}
use dockerfile_x.Source.Git.Read.{
  ensure_path, is_there, try_in_clone, or_missing, locate_in_clone, resolve_git_file, with_oid,
}

module _ {W : Type 0} (host : GitHost W) where
  abbrev pub real_in : Text → Io (GitState host) Text
  real_in path = beyond host (host.real_path path)

  try_in_clone-IsServed :
      (s : GitSource) (clone : Clone) (candidate r : Text) (v w' : GitState host)
      → try_in_clone host s clone candidate v ≡ (ok (some r), w')
      → (r ≡ candidate) × IsServed real_in host.cwd clone.dir candidate w'
  unfolding try_in_clone
  try_in_clone-IsServed s clone candidate r v w' h =
      let full = resolve_in host.cwd clone.dir candidate in
      let display = git_display_path s in
      let (u, x, h0, k0) =
        >>=-ok (of_result (assert_contained host.cwd clone.dir full display)) _ v h in
      let (a, y, h1, k1) =
        >>=-ok (ensure_path host (clone_key s.repo s.ref) clone candidate) _ x k0 in
      let (b, z, h2, k2) = >>=-ok (is_there host full) _ y k1 in
      behind_access real_in host.cwd display clone.dir candidate b r z w'
        (passed-Inside real_in host.cwd display clone.dir candidate v x u h0) k2

  or_missing-some :
      (s : GitSource) (o : Option Text) (path : Text) (v w' : GitState host)
      → or_missing host s o v ≡ (ok path, w')
      → (o ≡ some path) × (v ≡ w')
  unfolding or_missing throws returns
  or_missing-some s none path v w' h = cc
  or_missing-some s (some r) path v w' h = (cc, cc)

  same_found :
      (p q : Text × Text × GitSource) (v w' : GitState host)
      → returns {W = GitState host} p v ≡ (ok q, w')
      → (p ≡ q) × (v ≡ w')
  unfolding returns
  same_found p q v w' h = (cc, cc)

  locate_in_clone-IsServed :
      (s s' : GitSource) (clone : Clone) (dir path : Text) (w w' : GitState host)
      → locate_in_clone host s clone w ≡ (ok (dir, path, s'), w')
      → IsServed real_in host.cwd dir path w'
  unfolding locate_in_clone
  locate_in_clone-IsServed s s' clone dir path w w' h =
      let (o, y, h1, k1) =
        >>=-ok
          (try_with_extension (try_in_clone host s clone) s.file_path (some s.default_extension)) _
          w h in
      let (found, z, h2, k2) = >>=-ok (or_missing host s (truthy o)) _ y k1 in
      let (hit, stays) = or_missing-some s (truthy o) found y z h2 in
      let (same_file, stays') = same_found _ (dir, path, s') z w' k2 in
      let served =
        found-IsServed real_in host.cwd (try_in_clone host s clone) clone.dir s.file_path
          s.default_extension w y o found
          (λ candidate r v tried. try_in_clone-IsServed s clone candidate r v y tried) h1 hit in
      subst (λ x. IsServed real_in host.cwd x.0 x.1 w') same_file
        (subst (IsServed real_in host.cwd clone.dir found) (stays ∙ stays') served)

  -- Where the file of a git source is found in its clone, its path lies in the directory of the clone, and the
  -- check of real paths, made last, admitted it.
  pub resolve_git_file-IsServed :
      (s s' : GitSource) (dir path : Text) (w w' : GitState host)
      → resolve_git_file host s w ≡ (ok (dir, path, s'), w')
      → IsServed real_in host.cwd dir path w'
  unfolding resolve_git_file
  resolve_git_file-IsServed s s' dir path w w' h =
      let (clone, x, h0, k0) = >>=-ok (ensure_repo host s.repo s.ref) _ w h in
      locate_in_clone-IsServed (with_oid clone.oid s) s' clone dir path x w' k0
