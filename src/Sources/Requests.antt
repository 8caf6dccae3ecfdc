-- ===== src/Sources/Requests.antt =====
-- Which requests a compilation sends.
use mathlib.Core.Path.{fun_ext}
use dockerfile_x.Common.{◌≡◌, refl, ap, Text, ℕ, []}
use dockerfile_x.Errors.{Result}
use dockerfile_x.Io.{Io}
use dockerfile_x.Packages.{Packages}
use dockerfile_x.Source.{SourceApi}
use dockerfile_x.Source.Http.{read_http}
use dockerfile_x.Download.Cache.{Client, Request, Response, fetch_once}
use dockerfile_x.Download.Cache.Requests.{IsGuarded, with_get, fetch_once-guarded}
use dockerfile_x.Load.{root_load_dockerfile}
use dockerfile_x.Sources.{
  AnySource, of_local, of_http, of_git, of_oci, Platforms, Memos, sources, read_any, resolve_any,
  join_any, extension_any, key_any, display_any, alias_base_any, fs_path_any, new_http_any,
  parse_git_any, parse_oci_any, new_local_any, after, on_world, with_source,
}

-- The same platforms, with another way to send requests.
abbrev pub sending : {W : Type 0} → Platforms W → (Request → Io W Response) → Platforms W
sending platforms get = record {
  oci_host = platforms.oci_host;
  git_host = platforms.git_host;
  client = with_get platforms.client get;
  urls = platforms.urls;
  packages = platforms.packages;
  cwd = platforms.cwd;
}

module _ {W : Type 0} (platforms : Platforms W) (read_file : Text → Io W Text)
    (get : Request → Io W Response)
    (agree : (r : Request) (w : W)
      → IsGuarded platforms.packages platforms.client r
      → platforms.client.http_get r w ≡ get r w) where
  abbrev fetch_with : Client W → Text → Io W Text
  fetch_with client url = fetch_once platforms.packages client url []

  fetches : fetch_with platforms.client ≡ fetch_with (with_get platforms.client get)
  fetches =
      fun_ext
        (λ url. fun_ext (fetch_once-guarded platforms.packages platforms.client url [] get agree))

  read_any_eq :
      (s : AnySource) (memos : Memos platforms)
      → read_any platforms read_file s memos ≡ read_any (sending platforms get) read_file s memos
  unfolding read_any
  read_any_eq (of_local s) memos = refl
  read_any_eq (of_http s) memos =
      ap
        (λ f.
          after platforms (with_source platforms (of_http s))
            (on_world platforms (read_http f s) memos))
        fetches
  read_any_eq (of_git s) memos = refl
  read_any_eq (of_oci s) memos = refl

  -- The sources of the platforms, with another `read`.
  abbrev reading_with :
      (AnySource → Memos platforms → Result (Text × AnySource) × Memos platforms) → SourceApi
  reading_with read = record {
    World = Memos platforms;
    Source = AnySource;
    new_http = (sources platforms read_file).new_http;
    parse_git = (sources platforms read_file).parse_git;
    parse_oci = (sources platforms read_file).parse_oci;
    new_local = (sources platforms read_file).new_local;
    join_relative = (sources platforms read_file).join_relative;
    with_default_extension = (sources platforms read_file).with_default_extension;
    resolve = (sources platforms read_file).resolve;
    read = read;
    key = (sources platforms read_file).key;
    display_path = (sources platforms read_file).display_path;
    stage_alias_base = (sources platforms read_file).stage_alias_base;
    fs_path = (sources platforms read_file).fs_path;
  }

  -- Compiling a file sends guarded requests only: with any two ways to send requests that agree on the
  -- guarded ones, it ends alike, with the same text or error, in the same world and with the same memos.
  -- A guarded request has a time and a size that are finite and more than 0, a finite number of redirects,
  -- and a hook that lets only redirects pass that are permitted.
  pub root_load_dockerfile-guarded :
      (p : Packages) (file_path docker_context : Text) (max_include_depth : ℕ)
      → (memos : Memos platforms)
      → root_load_dockerfile
          (sources platforms read_file)
          p
          file_path
          docker_context
          max_include_depth
          memos
        ≡ root_load_dockerfile
            (sources (sending platforms get) read_file)
            p
            file_path
            docker_context
            max_include_depth
            memos
  unfolding resolve_any join_any extension_any key_any display_any alias_base_any fs_path_any
      new_http_any parse_git_any parse_oci_any new_local_any
  root_load_dockerfile-guarded p file_path docker_context max_include_depth memos =
      ap
        (λ read.
          root_load_dockerfile (reading_with read) p file_path docker_context max_include_depth
            memos)
        (fun_ext (λ s. fun_ext (read_any_eq s)))
