-- ===== src/Sources.antt =====
-- src/sources: the four classes together, as the sources that the loader works with.
pub mod Origin
pub mod Remote
pub mod Remembered
pub mod Requests
use dockerfile_x.Common.{Option, none, some, List, [], ◌∷◌, Text}
use dockerfile_x.Errors.{Result, ok, err}
use dockerfile_x.Io.{Io}
use dockerfile_x.Packages.{Packages}
use dockerfile_x.Path.{resolve_path}
use dockerfile_x.Download.Cache.{Client, fetch_once}
use dockerfile_x.Source.{SourceApi}
use dockerfile_x.Source.Git.{GitSource, parse_reference, git_key, git_display_path}
use dockerfile_x.Source.Git.Fetch.{GitHost, GitMemo}
use dockerfile_x.Source.Git.Read.{join_git, read_git, resolve_git}
use dockerfile_x.Source.Http.{UrlApi, HttpSource, new_http_source, join_http, http_key, read_http}
use dockerfile_x.Source.Local.{
  LocalSource, new_local_source, join_local, with_extension_local, local_key, local_fs_path,
  local_display_path, local_stage_alias_base, read_local,
}
use dockerfile_x.Source.Oci.{OciSource, parse_oci_reference, oci_key, join_oci}
use dockerfile_x.Source.Oci.Fetch.{Host, Memo}
use dockerfile_x.Source.Oci.Read.{read_oci, resolve_oci}

-- A source of one of the four classes.
pub data AnySource : Type 0 where
  of_local : LocalSource → AnySource
  of_http : HttpSource → AnySource
  of_git : GitSource → AnySource
  of_oci : OciSource → AnySource

-- What the classes call.
pub record Platforms (W : Type 0) : Type 0 where
  pub oci_host : Host W
  pub git_host : GitHost W
  pub client : Client W
  pub urls : UrlApi
  pub packages : Packages
  pub cwd : Text

abbrev pub wrap {ℓ κ} : {A : Type ℓ} {B : Type κ} → (A → B) → Result A → Result B
wrap f (ok a) = ok (f a)
wrap f (err e) = err e

abbrev pub wrap_read {ℓ κ} :
    {A : Type ℓ} {B : Type κ} → (A → B) → Result (Text × A) → Result (Text × B)
wrap_read f (ok (content, a)) = ok (content, f a)
wrap_read f (err e) = err e

abbrev pub resolve_base : Text → Option Text → Option Text
unfolding resolve_path
resolve_base cwd none = none
resolve_base cwd (some dir) = some (resolve_path cwd dir)

module _ {W : Type 0} (platforms : Platforms W) where
  open platforms use {oci_host, git_host, client, urls, packages, cwd}

  -- The memos of the two classes that have some, and the world.
  abbrev pub Memos : Type 0
  Memos = Memo × GitMemo × W

  abbrev pub on_oci {ℓ} : {A : Type ℓ} → Io (Memo × W) A → Io Memos A
  on_oci m (memo, gits, w) = let (r, (memo', w')) = m (memo, w) in (r, (memo', gits, w'))

  abbrev pub on_git {ℓ} : {A : Type ℓ} → Io (GitMemo × W) A → Io Memos A
  on_git m (memo, gits, w) = let (r, (gits', w')) = m (gits, w) in (r, (memo, gits', w'))

  abbrev pub on_world {ℓ} : {A : Type ℓ} → Io W A → Io Memos A
  on_world m (memo, gits, w) = let (r, w') = m w in (r, (memo, gits, w'))

  abbrev pub after {ℓ κ} : {A : Type ℓ} {B : Type κ} → (A → B) → Result A × Memos → Result B × Memos
  after f (r, s) = (wrap f r, s)

  abbrev pub after_read {ℓ κ} :
      {A : Type ℓ} {B : Type κ} → (A → B) → Result (Text × A) × Memos → Result (Text × B) × Memos
  after_read f (r, s) = (wrap_read f r, s)

  abbrev pub with_source : AnySource → Text → Text × AnySource
  with_source s content = (content, s)

  -- `resolve()`; the base class does nothing.
  unfoldable pub resolve_any : AnySource → Io Memos AnySource
  unfolding resolve_git resolve_oci
  resolve_any (of_local s) w = (ok (of_local s), w)
  resolve_any (of_http s) w = (ok (of_http s), w)
  resolve_any (of_git s) w = after of_git (on_git (resolve_git git_host s) w)
  resolve_any (of_oci s) w = after of_oci (on_oci (resolve_oci oci_host s) w)

  -- `read()`, for the call that reads a local file
  unfoldable pub read_any : (Text → Io W Text) → AnySource → Io Memos (Text × AnySource)
  unfolding read_local read_http fetch_once read_git read_oci
  read_any read_file (of_local s) w = after_read of_local (on_world (read_local read_file cwd s) w)
  read_any read_file (of_http s) w =
      after (with_source (of_http s))
        (on_world (read_http (λ url. fetch_once packages client url []) s) w)
  read_any read_file (of_git s) w = after_read of_git (on_git (read_git git_host s) w)
  read_any read_file (of_oci s) w = after_read of_oci (on_oci (read_oci oci_host s) w)

  -- `joinRelative(relPath)`
  unfoldable pub join_any : AnySource → Text → Result AnySource
  unfolding join_local join_http join_git join_oci
  join_any (of_local s) path = ok (of_local (join_local cwd s path))
  join_any (of_http s) path = wrap of_http (join_http urls s path)
  join_any (of_git s) path = wrap of_git (join_git s path)
  join_any (of_oci s) path = wrap of_oci (join_oci s path)

  -- `withDefaultExtension`, which LocalSource alone has.
  unfoldable pub extension_any : AnySource → Option (Text → AnySource)
  unfolding with_extension_local
  extension_any (of_local s) = some (λ extension. of_local (with_extension_local cwd s extension))
  extension_any _ = none

  -- `key()`
  unfoldable pub key_any : AnySource → Text
  unfolding local_key git_key oci_key
  key_any (of_local s) = local_key s
  key_any (of_http s) = http_key s
  key_any (of_git s) = git_key s
  key_any (of_oci s) = oci_key s

  -- `displayPath(dockerContext)`
  unfoldable pub display_any : AnySource → Text → Text
  unfolding local_display_path git_display_path oci_key
  display_any (of_local s) context = local_display_path cwd s context
  display_any (of_http s) context = http_key s
  display_any (of_git s) context = git_display_path s
  display_any (of_oci s) context = oci_key s

  -- `stageAliasBase(dockerContext)`
  unfoldable pub alias_base_any : AnySource → Text → Text
  unfolding local_stage_alias_base git_key oci_key
  alias_base_any (of_local s) context = local_stage_alias_base cwd s context
  alias_base_any (of_http s) context = http_key s
  alias_base_any (of_git s) context = git_key s
  alias_base_any (of_oci s) context = oci_key s

  -- `fsPath()`; the base class has none.
  unfoldable pub fs_path_any : AnySource → Option Text
  unfolding local_fs_path
  fs_path_any (of_local s) = some (local_fs_path s)
  fs_path_any _ = none

  -- The constructors of `resolveSource` and `loadDockerfile`.
  unfoldable pub new_http_any : Text → Option Text → Result AnySource
  unfolding new_http_source
  new_http_any url extension = wrap of_http (new_http_source urls url extension)

  unfoldable pub parse_git_any : Text → Option Text → Result AnySource
  unfolding parse_reference
  parse_git_any reference extension = wrap of_git (parse_reference reference extension)

  unfoldable pub parse_oci_any : Text → Option Text → Result AnySource
  unfolding parse_oci_reference
  parse_oci_any reference extension = wrap of_oci (parse_oci_reference reference extension)

  unfoldable pub new_local_any : Text → Text → Option Text → Option Text → Result AnySource
  unfolding new_local_source resolve_base
  new_local_any path context extension dir =
      ok (of_local (new_local_source cwd path context extension (resolve_base cwd dir)))

  -- The sources of the program, for the call that reads a local file.
  abbrev pub sources : (Text → Io W Text) → SourceApi
  sources read_file = record {
    World = Memos;
    Source = AnySource;
    new_http = new_http_any;
    parse_git = parse_git_any;
    parse_oci = parse_oci_any;
    new_local = new_local_any;
    join_relative = join_any;
    with_default_extension = extension_any;
    resolve = resolve_any;
    read = read_any read_file;
    key = key_any;
    display_path = display_any;
    stage_alias_base = alias_base_any;
    fs_path = fs_path_any;
  }
