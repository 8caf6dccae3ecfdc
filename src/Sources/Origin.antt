-- ===== src/Sources/Origin.antt =====
-- Where the sources of relative references come from.
use dockerfile_x.Common.{subst, ◌≡◌, refl, ◌∙◌, Option, none, some, Text}
use dockerfile_x.Errors.{ok_inj, passed, plain, Result, ok, err, >>=-eq-ok}
use dockerfile_x.Io.{Io}
use dockerfile_x.Path.{dirname, join_paths}
use dockerfile_x.PostProcess.{truthy}
use dockerfile_x.Source.{adapt, unsupported, resolve_source}
use dockerfile_x.Source.Scheme.{local, detect_scheme, unknown_scheme}
use dockerfile_x.Source.Git.{GitSource, new_git}
use dockerfile_x.Source.Git.Read.{join_git, keep_oid}
use dockerfile_x.Source.Git.RoundTrip.{new_git-IsMade}
use dockerfile_x.Source.Http.{UrlApi, join_http}
use dockerfile_x.Source.Http.Joined.{join_http-url}
use dockerfile_x.Source.Local.{join_local, new_local_source, with_extension_local}
use dockerfile_x.Source.Oci.{OciSource, join_oci, new_oci}
use dockerfile_x.Source.Oci.RoundTrip.{new_oci_at-IsMade}
use dockerfile_x.Sources.{
  AnySource, of_local, of_http, of_git, of_oci, Platforms, wrap, join_any, extension_any, sources,
}

-- The source of a path in another one: in its context, behind the address that the path stands for at its address,
-- in its repository at its ref and object, or in its artifact at its tag and digest.
pub IsSameOrigin : UrlApi → Text → AnySource → AnySource → Type 0
IsSameOrigin urls path (of_local s) (of_local t) = t.docker_context ≡ s.docker_context
IsSameOrigin urls path (of_http s) (of_http t) =
    urls.resolve_url path s.address ≡ some t.original_url
IsSameOrigin urls path (of_git s) (of_git t) = (t.repo ≡ s.repo) × (t.ref ≡ s.ref) × (t.oid ≡ s.oid)
IsSameOrigin urls path (of_oci s) (of_oci t) =
    (t.registry ≡ s.registry)
    × (t.repo ≡ s.repo)
    × (t.tag ≡ truthy s.tag)
    × (t.digest ≡ truthy s.digest)
IsSameOrigin urls path _ _ = ⊥

keep_oid-fields :
    (oid : Option Text) (r : Result GitSource) (t : GitSource)
    → keep_oid oid r ≡ ok t
    → (s : GitSource) × (r ≡ ok s) × (t.repo ≡ s.repo) × (t.ref ≡ s.ref) × (t.oid ≡ oid)
keep_oid-fields oid (ok s) t h = (s, refl, cc, cc, cc)
keep_oid-fields oid (err e) t h = cc

join_git-IsSameOrigin :
    (s t : GitSource) (path : Text)
    → join_git s path ≡ ok t
    → (t.repo ≡ s.repo) × (t.ref ≡ s.ref) × (t.oid ≡ s.oid)
unfolding join_git
join_git-IsSameOrigin s t path h =
    let (u, made, repo, ref, oid) =
      keep_oid-fields s.oid
        (new_git s.repo s.ref (join_paths (dirname s.file_path) path) (some s.default_extension)) t
        h in
    let m =
      new_git-IsMade s.repo s.ref (join_paths (dirname s.file_path) path) (some s.default_extension)
        made in
    (repo ∙ m.same_repo, ref ∙ m.same_ref, oid)

join_oci-IsSameOrigin :
    (s t : OciSource) (path : Text)
    → join_oci s path ≡ ok t
    → (t.registry ≡ s.registry)
      × (t.repo ≡ s.repo)
      × (t.tag ≡ truthy s.tag)
      × (t.digest ≡ truthy s.digest)
unfolding join_oci new_oci
join_oci-IsSameOrigin s t path h =
    let m =
      new_oci_at-IsMade s.registry s.repo (truthy s.tag) (truthy s.digest)
        (join_paths (dirname s.file_path) path) (some s.default_extension) h in
    (m.same_registry, m.same_repo, m.same_tag, m.same_digest)

wrap-ok :
    {A B : Type 0} (f : A → B) (r : Result A) (b : B)
    → wrap f r ≡ ok b
    → (a : A) × (r ≡ ok a) × (f a ≡ b)
wrap-ok f (ok a) b h = (a, refl, cc)
wrap-ok f (err e) b h = cc

module _ {W : Type 0} (platforms : Platforms W) (read_file : Text → Io W Text) where
  open platforms use {urls, cwd}

  join_any-IsSameOrigin :
      (s t : AnySource) (path : Text)
      → join_any platforms s path ≡ ok t
      → IsSameOrigin urls path s t
  unfolding IsSameOrigin join_any join_local new_local_source
  join_any-IsSameOrigin (of_local s) t path h =
      let e : of_local (join_local cwd s path) ≡ t = cc in
      subst (IsSameOrigin urls path (of_local s)) e refl
  join_any-IsSameOrigin (of_http s) t path h =
      let (u, made, e) = wrap-ok of_http (join_http urls s path) t h in
      subst (IsSameOrigin urls path (of_http s)) e (join_http-url urls s u path made)
  join_any-IsSameOrigin (of_git s) t path h =
      let (u, made, e) = wrap-ok of_git (join_git s path) t h in
      subst (IsSameOrigin urls path (of_git s)) e (join_git-IsSameOrigin s u path made)
  join_any-IsSameOrigin (of_oci s) t path h =
      let (u, made, e) = wrap-ok of_oci (join_oci s path) t h in
      subst (IsSameOrigin urls path (of_oci s)) e (join_oci-IsSameOrigin s u path made)

  adapt-IsSameOrigin :
      (s t : AnySource) (path : Text) (extension : Option Text)
      → IsSameOrigin urls path s t
      → IsSameOrigin urls path s (adapt (sources platforms read_file) t extension)
  unfolding IsSameOrigin extension_any with_extension_local new_local_source
  adapt-IsSameOrigin s t path none h = h
  adapt-IsSameOrigin (of_local s) (of_local t) path (some extension) h = h
  adapt-IsSameOrigin (of_http s) (of_local t) path (some extension) h = elim h [ ]
  adapt-IsSameOrigin (of_git s) (of_local t) path (some extension) h = elim h [ ]
  adapt-IsSameOrigin (of_oci s) (of_local t) path (some extension) h = elim h [ ]
  adapt-IsSameOrigin s (of_http t) path (some extension) h = h
  adapt-IsSameOrigin s (of_git t) path (some extension) h = h
  adapt-IsSameOrigin s (of_oci t) path (some extension) h = h

  -- A reference without a scheme that resolves in a source, of the four classes together, gives a source of the same
  -- class and origin: one with the same context; one made for the address that the reference stands for there; one of
  -- the same repository, ref and object; or one of the same registry, repository, tag and digest.
  pub resolve_source-IsSameOrigin :
      (parent child : AnySource) (path context : Text) (extension : Option Text)
      → detect_scheme path ≡ local
      → resolve_source (sources platforms read_file) path (some parent) context extension ≡ ok child
      → IsSameOrigin urls path parent child
  unfolding resolve_source
  resolve_source-IsSameOrigin parent child path context extension relative h =
      let h' =
        passed (unknown_scheme path) (plain (unsupported (sources platforms read_file) path))
          (rw relative at h) in
      let (u, joined, e) = >>=-eq-ok (join_any platforms parent path) _ h' in
      subst (IsSameOrigin urls path parent) (ok_inj e)
        (adapt-IsSameOrigin parent u path extension (join_any-IsSameOrigin parent u path joined))
