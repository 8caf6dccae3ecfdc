-- ===== src/Source/Git/Fetch.antt =====
-- src/sources/GitSource.js: the clones and their sparse checkouts. Calls are made one after the other, as the
-- loader makes them, so no entry of a cache is a promise that is pending. `git` runs git with its arguments.
use dockerfile_x.Names.{short_hash}
use dockerfile_x.Packages.{Packages}
use dockerfile_x.Spawn.{spawn_cmd, ChildProcess}
use dockerfile_x.Common.{
  Bool, ◌&&◌, ◌||◌, Option, none, some, List, [], ◌∷◌, ◌++◌, Text, codes, ◌==◌, leb, all, length,
  if◌then◌else◌, is_digit, trim, to_lower,
}
use dockerfile_x.Common.Lookup.{find}
use dockerfile_x.Errors.{Result, ok}
use dockerfile_x.Io.{ensure_dir, Io, returns, throws, attempt, has_code, ◌>>=◌, ◌>>◌}
use dockerfile_x.Path.{join_paths}
use dockerfile_x.PostProcess.{truthy}

-- A clone: its directory, the object that it is at, and the directories that were checked out.
pub record Clone : Type 0 where
  pub dir : Text
  pub oid : Text
  pub sparse_set : List Text

-- What the code reads of the process, and its calls.
pub record GitHost (W : Type 0) : Type 0 where
  pub cwd : Text
  pub homedir : Text
  pub cache_dir_variable : Option Text
  pub temp_suffix : Text
  pub packages : Packages
  pub child_process : ChildProcess W
  pub read_file : Text → Io W Text
  pub real_path : Text → Io W Text
  pub mkdir : Text → Bool → Io W (Unit {0})
  pub remove : Text → Io W (Unit {0})
  pub rename : Text → Text → Io W (Unit {0})
  pub access : Text → Io W (Unit {0})

-- The two maps of the module.
pub record GitMemo : Type 0 where
  pub clones : List (Text × Clone)
  pub oids : List (Text × Text)

-- `SHA_RE` without its flag: 40 or 64 hexadecimal digits in lower case.
unfoldable pub is_oid : Text → Bool
is_oid s = all (λ c. is_digit c || leb b'a' c && leb c b'f') s && (length s == 40 || length s == 64)

-- `isShaRef(ref)`
unfoldable pub is_sha_ref : Text → Bool
is_sha_ref s =
    all (λ c. is_digit c || leb b'a' c && leb c b'f' || leb b'A' c && leb c b'F') s
    && (length s == 40 || length s == 64)

abbrev pub or_root : Option Text → Text → Text
or_root none d = d
or_root (some s) d = s

-- `` `${repo}#${ref}` ``
abbrev pub clone_key : Text → Text → Text
clone_key repo ref = repo ++ b'#' ∷ ref

-- The arguments of git.
abbrev pub in_dir : Text → List Text → List Text
in_dir dir args = codes "-C" ∷ dir ∷ args

abbrev pub remote_args : Text → List Text
remote_args repo = codes "remote" ∷ codes "add" ∷ codes "origin" ∷ codes "--" ∷ repo ∷ []

abbrev pub fetch_ref_args : Text → List Text
fetch_ref_args ref =
    codes "-c"
    ∷ codes "protocol.version=2"
    ∷ codes "fetch"
    ∷ codes "--depth"
    ∷ codes "1"
    ∷ codes "--filter=blob:none"
    ∷ codes "--no-tags"
    ∷ codes "origin"
    ∷ codes "--"
    ∷ ref
    ∷ []

abbrev pub clone_args : Text → Text → Text → List Text
clone_args repo ref dir =
    codes "clone"
    ∷ codes "--depth"
    ∷ codes "1"
    ∷ codes "--filter=blob:none"
    ∷ codes "--no-checkout"
    ∷ codes "--single-branch"
    ∷ codes "--branch"
    ∷ ref
    ∷ codes "--"
    ∷ repo
    ∷ dir
    ∷ []

abbrev pub sparse_init_args : List Text
sparse_init_args = codes "sparse-checkout" ∷ codes "init" ∷ codes "--cone" ∷ []

abbrev pub rev_parse_args : List Text
rev_parse_args = codes "rev-parse" ∷ codes "HEAD" ∷ []

abbrev pub ls_remote_args : Text → Text → List Text
ls_remote_args repo ref = codes "ls-remote" ∷ codes "--" ∷ repo ∷ ref ∷ []

-- `sparse-checkout set` at a directory, or `disable` at the top.
abbrev pub sparse_args : Text → List Text
sparse_args [] = codes "sparse-checkout" ∷ codes "disable" ∷ []
sparse_args (c ∷ dir) = codes "sparse-checkout" ∷ codes "set" ∷ codes "--" ∷ (c ∷ dir) ∷ []

module _ {W : Type 0} (host : GitHost W) where
  open host use {
    homedir, cache_dir_variable, temp_suffix, packages, child_process, mkdir, remove, rename,
  }

  -- The state: the maps and the world.
  abbrev pub GitState : Type 0
  GitState = GitMemo × W

  abbrev pub keep {ℓ} : {A : Type ℓ} → GitMemo → Result A × W → Result A × GitState
  keep memo (r, w) = (r, (memo, w))

  -- A call that leaves the maps.
  unfoldable pub beyond {ℓ} : {A : Type ℓ} → Io W A → Io GitState A
  beyond m (memo, w) = keep memo (m w)

  unfoldable pub change_memo : (GitMemo → GitMemo) → Io GitState (Unit {0})
  change_memo f (memo, w) = (ok tt, (f memo, w))

  unfoldable pub get_memo : Io GitState GitMemo
  get_memo (memo, w) = (ok memo, (memo, w))

  -- `spawnCmd("git", args)`
  abbrev pub run_git : List Text → Io GitState Text
  run_git args = beyond (spawn_cmd child_process (codes "git") none args)

  -- `gitCacheRoot()`
  abbrev pub git_cache_root : Text
  unfolding truthy join_paths
  git_cache_root =
      or_root (truthy cache_dir_variable)
        (join_paths homedir (join_paths (codes ".dockerfile-x") (codes "git-cache")))

  -- The object of a directory that is populated already: `none` if git fails there or answers nothing.
  unfoldable pub populated_oid : Text → Io GitState (Option Text)
  unfolding beyond attempt returns ◌>>=◌ trim truthy
  populated_oid dir =
      attempt
        (do stdout ← run_git (in_dir dir rev_parse_args); returns (truthy (some (trim stdout))))
        (λ e. returns none)

  -- The fetch of one object.
  unfoldable pub fetch_sha : Text → Text → Text → Io GitState Text
  unfolding beyond returns ◌>>=◌ to_lower
  fetch_sha repo ref dir = do
    beyond (ensure_dir mkdir dir)
    run_git (in_dir dir (codes "init" ∷ codes "--quiet" ∷ []))
    run_git (in_dir dir (remote_args repo))
    run_git (in_dir dir (fetch_ref_args ref))
    run_git (
        in_dir dir
          (codes "update-ref" ∷ codes "--no-deref" ∷ codes "HEAD" ∷ codes "FETCH_HEAD" ∷ []))
    run_git (in_dir dir sparse_init_args)
    returns (to_lower ref)

  -- The clone of a branch or tag.
  unfoldable pub clone_branch : Text → Text → Text → Io GitState Text
  unfolding beyond returns ◌>>=◌ trim
  clone_branch repo ref dir = do
    run_git (clone_args repo ref dir)
    run_git (in_dir dir sparse_init_args)
    stdout ← run_git (in_dir dir rev_parse_args)
    returns (trim stdout)

  -- The move into the cache, which another process may have filled.
  unfoldable pub move_clone : Text → Text → Io GitState (Unit {0})
  unfolding beyond attempt throws returns ◌>>=◌ has_code
  move_clone temp_dir dir = attempt (beyond (rename temp_dir dir)) (λ e.
      if has_code (codes "ENOTEMPTY") e || has_code (codes "EEXIST") e
      then beyond (remove temp_dir)
      else (do attempt (beyond (remove temp_dir)) (λ f. returns tt); throws e))

  abbrev pub new_clone : Text → Text → Clone
  new_clone dir oid = record { dir = dir; oid = oid; sparse_set = [] }

  unfoldable pub clone_unless : Text → Text → Text → Option Text → Io GitState Clone
  unfolding fetch_sha clone_branch move_clone is_sha_ref returns ◌>>=◌ beyond
  clone_unless repo ref dir (some oid) = returns (new_clone dir oid)
  clone_unless repo ref dir none = do
    let temp_dir = dir ++ temp_suffix
    beyond (remove temp_dir)
    oid ← if is_sha_ref ref then fetch_sha repo ref temp_dir else clone_branch repo ref temp_dir
    move_clone temp_dir dir
    returns (new_clone dir oid)

  abbrev pub with_clone : Text → Clone → GitMemo → GitMemo
  with_clone key clone memo = record { clones = (key, clone) ∷ memo.clones; oids = memo.oids }

  unfoldable pub clone_or : Text → Text → Option Clone → Io GitState Clone
  unfolding clone_unless populated_oid change_memo returns ◌>>=◌ beyond join_paths
  clone_or repo ref (some clone) = returns clone
  clone_or repo ref none = do
    beyond (ensure_dir mkdir git_cache_root)
    let dir =
        join_paths git_cache_root (short_hash packages repo 16 ++ b'-' ∷ short_hash packages ref 16)
    oid ← populated_oid dir
    clone ← clone_unless repo ref dir oid
    change_memo (with_clone (clone_key repo ref) clone)
    returns clone

  -- `ensureRepo(repo, ref)`
  unfoldable pub ensure_repo : Text → Text → Io GitState Clone
  unfolding clone_or find get_memo ◌>>=◌
  ensure_repo repo ref = do
    memo ← get_memo
    clone_or repo ref (find (clone_key repo ref) memo.clones)
