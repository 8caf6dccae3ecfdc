-- ===== src/Source/Oci/Fetch.antt =====
-- src/sources/OciSource.js: the artifacts in the cache, `resolve` and `read`. Calls are made one after
-- the other, as the loader makes them, so no entry of a cache is a promise that is pending.
use dockerfile_x.Packages.{Packages}
use dockerfile_x.Spawn.{ChildProcess}
use dockerfile_x.Common.{Bool, Option, none, some, List, [], ◌∷◌, ◌++◌, Text, codes, if◌then◌else◌}
use dockerfile_x.Errors.{Result, ok}
use dockerfile_x.Io.{check_file_exists, Io, returns, ◌>>=◌, ◌>>◌}
use dockerfile_x.Path.{join_paths}
use dockerfile_x.PostProcess.{truthy}
use dockerfile_x.Source.Oci.Digest.{Value}

-- An entry of the cache of artifacts: a directory, and the digest of its index, if it has one.
pub record Entry : Type 0 where
  pub dir : Text
  pub digest : Option Text

-- What the code reads of the process, and its calls. `check_access` is `fs.promises.access` for
-- existence; `parse_descriptor` and `parse_index` are
-- `JSON.parse(s)?.digest` and `JSON.parse(s)?.manifests?.[0]?.digest`, `none` where the parser throws, and
-- `undefined` for a value of an index that is falsy. `stringify` is `JSON.stringify` at a string.
pub record Host (W : Type 0) : Type 0 where
  pub cwd : Text
  pub tmpdir : Text
  pub homedir : Text
  pub cache_dir_variable : Option Text
  pub oras_bin_variable : Option Text
  pub plain_http_variable : Option Text
  pub docker_config_variable : Option Text
  pub home_variable : Option Text
  pub temp_suffix : Text
  pub packages : Packages
  pub stringify : Text → Text
  pub parse_descriptor : Text → Option Value
  pub parse_index : Text → Option Value
  pub child_process : ChildProcess W
  pub check_access : Text → Io W (Unit {0})
  pub read_file : Text → Io W Text
  pub real_path : Text → Io W Text
  pub make_temp_dir : Text → Io W Text
  pub copy_file : Text → Text → Io W (Unit {0})
  pub mkdir : Text → Bool → Io W (Unit {0})
  pub remove : Text → Io W (Unit {0})
  pub rename : Text → Text → Io W (Unit {0})
  pub access : Text → Io W (Unit {0})

-- The three memos of the module, before the world.
pub record Memo : Type 0 where
  pub artifacts : List (Text × Entry)
  pub digests : List (Text × Text)
  pub config_dir : Option (Option Text)

abbrev pub or_text : Option Text → Text → Text
or_text none d = d
or_text (some s) d = s

module _ {W : Type 0} (host : Host W) where
  open host use {
    cwd, tmpdir, homedir, cache_dir_variable, oras_bin_variable, plain_http_variable,
    docker_config_variable, home_variable, temp_suffix, packages, stringify, parse_descriptor,
    parse_index, child_process, check_access, read_file, real_path, make_temp_dir, copy_file, mkdir,
    remove, rename,
  }

  -- The state: the memos and the world.
  abbrev pub OciState : Type 0
  OciState = Memo × W

  -- A call that leaves the memos.
  abbrev pub keep {ℓ} : {A : Type ℓ} → Memo → Result A × W → Result A × OciState
  keep memo (r, w) = (r, (memo, w))

  unfoldable pub outside {ℓ} : {A : Type ℓ} → Io W A → Io OciState A
  outside m (memo, w) = keep memo (m w)

  -- `checkFileExists(file)`
  unfoldable pub exists : Text → Io OciState Bool
  unfolding outside check_file_exists
  exists path = outside (check_file_exists check_access path)

  unfoldable pub update_memo : (Memo → Memo) → Io OciState (Unit {0})
  update_memo f (memo, w) = (ok tt, (f memo, w))

  unfoldable pub read_memo : Io OciState Memo
  read_memo (memo, w) = (ok memo, (memo, w))

  -- `ociCacheRoot()`
  abbrev pub oci_cache_root : Text
  unfolding truthy join_paths
  oci_cache_root =
      or_text (truthy cache_dir_variable)
        (join_paths homedir (join_paths (codes ".dockerfile-x") (codes "oci-cache")))

  -- `findOrasBin()`
  abbrev pub find_oras_bin : Text
  unfolding truthy
  find_oras_bin = or_text (truthy oras_bin_variable) (codes "oras")

  -- The first candidate that has a `config.json`.
  unfoldable pub first_config : List Text → Io OciState (Option Text)
  unfolding returns ◌>>=◌ join_paths
  first_config [] = returns none
  first_config (dir ∷ dirs) = do
    found ← exists (join_paths dir (codes "config.json"))
    if found then returns (some dir) else first_config dirs

  abbrev pub config_candidate : Option Text → Text → List Text
  config_candidate none inner = []
  config_candidate (some dir) inner = join_paths dir inner ∷ []

  abbrev pub own_dir : Option Text → List Text
  own_dir none = []
  own_dir (some dir) = dir ∷ []

  -- The config directory, read afresh.
  unfoldable pub find_config_dir : Io OciState (Option Text)
  unfolding first_config returns ◌>>=◌ truthy join_paths
  find_config_dir = do
    secret ← exists (codes "/run/secrets/docker-config")
    if secret
        then (do
          dir ← outside (make_temp_dir (join_paths tmpdir (codes "dfx-docker-config-")))
          outside (
              copy_file (codes "/run/secrets/docker-config") (join_paths dir (codes "config.json")))
          returns (some dir))
        else first_config (
            own_dir (truthy docker_config_variable)
            ++ config_candidate (truthy home_variable) (codes ".docker"))

  abbrev pub with_config : Option Text → Memo → Memo
  with_config dir memo = record {
    artifacts = memo.artifacts;
    digests = memo.digests;
    config_dir = some dir;
  }

  unfoldable pub memo_config : Option (Option Text) → Io OciState (Option Text)
  unfolding find_config_dir returns ◌>>=◌
  memo_config (some dir) = returns dir
  memo_config none = do dir ← find_config_dir; update_memo (with_config dir); returns dir

  -- `resolveDockerConfigDir()`: what was found is kept, a failure is not.
  unfoldable pub resolve_docker_config_dir : Io OciState (Option Text)
  unfolding memo_config ◌>>=◌
  resolve_docker_config_dir = do memo ← read_memo; memo_config memo.config_dir
