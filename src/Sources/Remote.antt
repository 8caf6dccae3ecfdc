-- ===== src/Sources/Remote.antt =====
-- What a remote source includes is remote, and no local file is read for it.
use dockerfile_x.Common.{ℕ, subst, ◌≡◌, ◌≢◌, refl, ◌⊎◌, inl, inr, Option, none, some, Text}
use dockerfile_x.Errors.{Result, ok, err, plain, passed, ok_inj, >>=-eq-ok}
use dockerfile_x.Io.{Io}
use dockerfile_x.Packages.{Packages}
use dockerfile_x.Source.{adapt, unsupported, resolve_source}
use dockerfile_x.Source.Scheme.{SourceScheme, http, git, oci, local, detect_scheme, unknown_scheme}
use dockerfile_x.Processors.{Context}
use dockerfile_x.Processors.Reading.{IsConfined}
use dockerfile_x.Load.{load_dockerfile}
use dockerfile_x.Load.Reading.{load_dockerfile-Agrees}
use dockerfile_x.Source.Http.{HttpSource}
use dockerfile_x.Sources.{
  AnySource, of_local, of_http, of_git, of_oci, Platforms, wrap, wrap_read, Memos, sources,
  join_any, resolve_any, read_any, extension_any, new_http_any, parse_git_any, parse_oci_any,
}

-- A source of one of the three classes that are not local.
abbrev pub IsRemote : AnySource → Type 0
IsRemote (of_local s) = ⊥
IsRemote (of_http s) = Unit
IsRemote (of_git s) = Unit
IsRemote (of_oci s) = Unit

wrap-IsRemote :
    {A : Type 0} (f : A → AnySource)
    → ((a : A) → IsRemote (f a))
    → (r : Result A) (s : AnySource) → wrap f r ≡ ok s
    → IsRemote s
wrap-IsRemote f h (ok a) s e = subst IsRemote (ok_inj e) (h a)
wrap-IsRemote f h (err _) s e = cc

scheme_cases : (s : SourceScheme) → (s ≡ http) ⊎ ((s ≡ git) ⊎ ((s ≡ oci) ⊎ (s ≡ local)))
scheme_cases http = inl refl
scheme_cases git = inr (inl refl)
scheme_cases oci = inr (inr (inl refl))
scheme_cases local = inr (inr (inr refl))

local_cases : (s : SourceScheme) → (s ≡ local) ⊎ (s ≢ local)
local_cases http = inr (cc)
local_cases git = inr (cc)
local_cases oci = inr (cc)
local_cases local = inl refl

wrap_read-IsRemote :
    {A : Type 0} (f : A → AnySource)
    → ((a : A) → IsRemote (f a))
    → (r : Result (Text × A)) (s : Text × AnySource) → wrap_read f r ≡ ok s
    → IsRemote s.1
wrap_read-IsRemote f h (ok (c, a)) s e =
    subst (λ (r : Text × AnySource). IsRemote r.1) (ok_inj e) (h a)
wrap_read-IsRemote f h (err _) s e = cc

with_source-IsRemote :
    (s : HttpSource) (r : Result Text) (t : Text × AnySource)
    → wrap (λ content. (content, of_http s)) r ≡ ok t
    → IsRemote t.1
with_source-IsRemote s (ok c) t e = subst (λ (r : Text × AnySource). IsRemote r.1) (ok_inj e) tt
with_source-IsRemote s (err _) t e = cc

module _ {W : Type 0} (platforms : Platforms W) (read_file : Text → Io W Text) where
  join_any-IsRemote :
      (s t : AnySource) (path : Text) → IsRemote s → join_any platforms s path ≡ ok t → IsRemote t
  unfolding join_any
  join_any-IsRemote (of_local s) t path h e = absurd h
  join_any-IsRemote (of_http s) t path h e = wrap-IsRemote of_http (λ _. tt) _ t e
  join_any-IsRemote (of_git s) t path h e = wrap-IsRemote of_git (λ _. tt) _ t e
  join_any-IsRemote (of_oci s) t path h e = wrap-IsRemote of_oci (λ _. tt) _ t e

  adapt-IsRemote :
      (s : AnySource) (extension : Option Text)
      → IsRemote s
      → IsRemote (adapt (sources platforms read_file) s extension)
  unfolding extension_any
  adapt-IsRemote s none h = h
  adapt-IsRemote (of_local s) (some extension) h = absurd h
  adapt-IsRemote (of_http s) (some extension) h = h
  adapt-IsRemote (of_git s) (some extension) h = h
  adapt-IsRemote (of_oci s) (some extension) h = h

  relative-IsRemote :
      (parent child : AnySource) (path context : Text) (extension : Option Text)
      → IsRemote parent
      → detect_scheme path ≡ local
      → resolve_source (sources platforms read_file) path (some parent) context extension ≡ ok child
      → IsRemote child
  unfolding resolve_source
  relative-IsRemote parent child path context extension h relative e =
      let e' =
        passed (unknown_scheme path) (plain (unsupported (sources platforms read_file) path))
          (rw relative at e) in
      let (u, joined, k) = >>=-eq-ok (join_any platforms parent path) _ e' in
      subst IsRemote (ok_inj k)
        (adapt-IsRemote u extension (join_any-IsRemote parent u path h joined))

  schemed-IsRemote :
      (parent : Option AnySource) (child : AnySource) (reference context : Text)
      (extension : Option Text)
      → detect_scheme reference ≢ local
      → resolve_source (sources platforms read_file) reference parent context extension ≡ ok child
      → IsRemote child
  unfolding resolve_source new_http_any parse_git_any parse_oci_any
  schemed-IsRemote parent child reference context extension n e =
      elim (scheme_cases (detect_scheme reference)) [
        | inl k ↦ wrap-IsRemote of_http (λ _. tt) _ child (rw k at e)
        | inr (inl k) ↦ wrap-IsRemote of_git (λ _. tt) _ child (rw k at e)
        | inr (inr (inl k)) ↦ wrap-IsRemote of_oci (λ _. tt) _ child (rw k at e)
        | inr (inr (inr k)) ↦ absurd (n k)
      ]

  resolve_any-IsRemote :
      (s s' : AnySource) (w : Memos platforms)
      → IsRemote s
      → (resolve_any platforms s w).0 ≡ ok s'
      → IsRemote s'
  unfolding resolve_any
  resolve_any-IsRemote (of_local s) s' w h e = absurd h
  resolve_any-IsRemote (of_http s) s' w h e = subst IsRemote (ok_inj e) h
  resolve_any-IsRemote (of_git s) s' w h e = wrap-IsRemote of_git (λ _. tt) _ s' e
  resolve_any-IsRemote (of_oci s) s' w h e = wrap-IsRemote of_oci (λ _. tt) _ s' e

  read_any-IsRemote :
      (s : AnySource) (r : Text × AnySource) (w : Memos platforms)
      → IsRemote s
      → (read_any platforms read_file s w).0 ≡ ok r
      → IsRemote r.1
  unfolding read_any
  read_any-IsRemote (of_local s) r w h e = absurd h
  read_any-IsRemote (of_http s) r w h e = with_source-IsRemote s _ r e
  read_any-IsRemote (of_git s) r w h e = wrap_read-IsRemote of_git (λ _. tt) _ r e
  read_any-IsRemote (of_oci s) r w h e = wrap_read-IsRemote of_oci (λ _. tt) _ r e

  read_any-remote :
      (read_file' : Text → Io W Text) (s : AnySource) (w : Memos platforms)
      → IsRemote s
      → read_any platforms read_file s w ≡ read_any platforms read_file' s w
  unfolding read_any
  read_any-remote read_file' (of_local s) w h = absurd h
  read_any-remote read_file' (of_http s) w h = refl
  read_any-remote read_file' (of_git s) w h = refl
  read_any-remote read_file' (of_oci s) w h = refl

  included-IsRemote :
      (reference : Text) (parent child : AnySource) (context : Text) (extension : Option Text)
      → IsRemote parent
      → resolve_source (sources platforms read_file) reference (some parent) context extension
        ≡ ok child
      → IsRemote child
  included-IsRemote reference parent child context extension h e =
      elim (local_cases (detect_scheme reference)) [
        | inl k ↦ relative-IsRemote parent child reference context extension h k e
        | inr n ↦ schemed-IsRemote (some parent) child reference context extension n e
      ]

  sources-IsConfined :
      (read_file' : Text → Io W Text)
      → IsConfined (sources platforms read_file) (read_any platforms read_file') IsRemote
  sources-IsConfined read_file' = record {
    included = included-IsRemote;
    resolved = resolve_any-IsRemote;
    been_read = read_any-IsRemote;
    alike = read_any-remote read_file';
  }

  -- The load of a remote source, at any depth and in any world, does not depend on the local files: with any
  -- two ways to read local files it ends alike, with the same text or error, and leaves the same world and
  -- the same memos, whatever the remote file includes.
  pub load_dockerfile-reads_no_local_file :
      (read_file' : Text → Io W Text) (p : Packages) (fuel : ℕ) (s : AnySource) (c : Context)
      (w : Memos platforms)
      → IsRemote s
      → load_dockerfile (sources platforms read_file) p fuel s c w
        ≡ load_dockerfile (sources platforms read_file') p fuel s c w
  load_dockerfile-reads_no_local_file read_file' p fuel s c w h =
      (load_dockerfile-Agrees (sources platforms read_file) (read_any platforms read_file') IsRemote
          (sources-IsConfined read_file') p fuel s c h).same
        w
