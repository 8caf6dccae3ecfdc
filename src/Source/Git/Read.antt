-- ===== src/Source/Git/Read.antt =====
-- src/sources/GitSource.js: `resolve`, the sparse checkouts, `read` and `joinRelative`.
use dockerfile_x.Common.{
  Bool, true, false, ◌||◌, Option, none, some, List, [], ◌∷◌, ◌++◌, Text, codes, if◌then◌else◌,
  same, includes, to_lower,
}
use dockerfile_x.Common.Lookup.{find}
use dockerfile_x.Common.Split.{split_at, split_spaces}
use dockerfile_x.Errors.{Result, ok, err, plain, remote_file_not_found}
use dockerfile_x.Io.{Io, returns, throws, of_result, attempt, ◌>>=◌, ◌>>◌}
use dockerfile_x.Path.{dirname, join_paths, resolve_in}
use dockerfile_x.PostProcess.{truthy}
use dockerfile_x.Source.Contained.{assert_contained, assert_contained_real}
use dockerfile_x.Source.RelativePath.{try_with_extension}
use dockerfile_x.Source.Git.{GitSource, new_git, git_display_path}
use dockerfile_x.Source.Git.Fetch.{
  Clone, GitHost, GitMemo, GitState, is_oid, is_sha_ref, clone_key, in_dir, ls_remote_args,
  sparse_args, beyond, change_memo, get_memo, run_git, ensure_repo,
}

abbrev pub with_oid : Text → GitSource → GitSource
with_oid oid s = record {
  repo = s.repo;
  ref = s.ref;
  file_path = s.file_path;
  default_extension = s.default_extension;
  oid = some oid;
}

-- `lines.find(Boolean) || ""`
abbrev pub first_line : List Text → Text
first_line [] = []
first_line ([] ∷ lines) = first_line lines
first_line ((c ∷ line) ∷ lines) = c ∷ line

abbrev pub first_word : List Text → Text
first_word [] = []
first_word (word ∷ words) = word

-- The first column of the first line that `git ls-remote` writes.
unfoldable pub listed_oid : Text → Text
unfolding split_at split_spaces
listed_oid stdout = first_word (split_spaces (first_line (split_at 10 stdout)))

-- The object that git names, if it is one.
unfoldable pub checked_oid : Text → Text → Text → Result Text
unfolding is_oid
checked_oid repo ref oid =
    if is_oid oid
    then ok oid
    else err (
        plain (codes "git ls-remote " ++ (repo ++ b' ' ∷ (ref ++ codes ": could not resolve oid"))))

-- `parentDir === "." || parentDir === "/" ? "" : parentDir`
abbrev pub sparse_arg : Text → Text
unfolding dirname same
sparse_arg path =
    let parent = dirname path in
    if same parent (codes ".") || same parent (codes "/") then [] else parent

module _ {W : Type 0} (host : GitHost W) where
  open host use {cwd, read_file, real_path, access}

  abbrev pub with_oid_of : Text → Text → GitMemo → GitMemo
  with_oid_of key oid memo = record { clones = memo.clones; oids = (key, oid) ∷ memo.oids }

  unfoldable pub listed_or : Text → Text → Option Text → Io (GitState host) Text
  unfolding listed_oid checked_oid of_result returns ◌>>=◌ change_memo beyond
  listed_or repo ref (some oid) = returns oid
  listed_or repo ref none = do
    stdout ← run_git host (ls_remote_args repo ref)
    oid ← of_result (checked_oid repo ref (listed_oid stdout))
    change_memo host (with_oid_of (clone_key repo ref) oid)
    returns oid

  unfoldable pub resolve_ref : GitSource → Io (GitState host) GitSource
  unfolding listed_or is_sha_ref to_lower find get_memo returns ◌>>=◌
  resolve_ref s = if is_sha_ref s.ref then returns (with_oid (to_lower s.ref) s) else (do
    memo ← get_memo host
    oid ← listed_or s.repo s.ref (find (clone_key s.repo s.ref) memo.oids)
    returns (with_oid oid s))

  unfoldable pub resolve_unless_known : GitSource → Option Text → Io (GitState host) GitSource
  unfolding resolve_ref returns
  resolve_unless_known s (some oid) = returns s
  resolve_unless_known s none = resolve_ref s

  -- `resolve()`
  unfoldable pub resolve_git : GitSource → Io (GitState host) GitSource
  unfolding resolve_unless_known truthy
  resolve_git s = resolve_unless_known s (truthy s.oid)

  -- The directories of a clone, which all its holders share.
  abbrev pub sparse_of : Clone → Option Clone → List Text
  sparse_of clone none = clone.sparse_set
  sparse_of clone (some shared) = shared.sparse_set

  abbrev pub add_sparse : Text → Text → List (Text × Clone) → List (Text × Clone)
  unfolding same
  add_sparse key arg [] = []
  add_sparse key arg ((k, clone) ∷ l) =
      let rest = add_sparse key arg l in
      if same key k
      then (k, record { dir = clone.dir; oid = clone.oid; sparse_set = arg ∷ clone.sparse_set }) ∷ l
      else (k, clone) ∷ rest

  unfoldable pub with_sparse : Text → Text → GitMemo → GitMemo
  unfolding add_sparse
  with_sparse key arg memo = record { clones = add_sparse key arg memo.clones; oids = memo.oids }

  unfoldable pub check_out : Text → Text → Text → Io (GitState host) (Unit {0})
  unfolding with_sparse beyond change_memo ◌>>=◌
  check_out key dir arg = do
    run_git host (in_dir dir (sparse_args arg))
    run_git host (in_dir dir (codes "checkout" ∷ []))
    change_memo host (with_sparse key arg)

  -- `ensurePath(entry, filePath)`, for the key of the entry.
  unfoldable pub ensure_path : Text → Clone → Text → Io (GitState host) (Unit {0})
  unfolding check_out includes find get_memo returns ◌>>=◌ sparse_arg
  ensure_path key clone path = do
    memo ← get_memo host
    if includes (sparse_arg path) (sparse_of clone (find key memo.clones))
        then returns tt
        else check_out key clone.dir (sparse_arg path)

  unfoldable pub is_there : Text → Io (GitState host) Bool
  unfolding beyond attempt returns ◌>>=◌
  is_there full = attempt (beyond host (access full) >> returns true) (λ e. returns false)

  -- `tryPath(candidate)`
  unfoldable pub try_in_clone : GitSource → Clone → Text → Io (GitState host) (Option Text)
  unfolding assert_contained assert_contained_real resolve_in of_result ensure_path is_there beyond
      returns ◌>>=◌ git_display_path
  try_in_clone s clone candidate = do
    let full = resolve_in cwd clone.dir candidate
    of_result (assert_contained cwd clone.dir full (git_display_path s))
    ensure_path (clone_key s.repo s.ref) clone candidate
    there ← is_there full
    if there
        then (do
          assert_contained_real (λ path. beyond host (real_path path)) cwd clone.dir full
              (git_display_path s)
          returns (some candidate))
        else returns none

  unfoldable pub or_missing : GitSource → Option Text → Io (GitState host) Text
  unfolding throws returns
  or_missing s none =
      throws (remote_file_not_found (s.repo ++ b'#' ∷ (s.ref ++ b':' ∷ s.file_path)))
  or_missing s (some path) = returns path

  -- `_resolveFile()` behind the clone.
  unfoldable pub locate_in_clone : GitSource → Clone → Io (GitState host) (Text × Text × GitSource)
  unfolding try_in_clone try_with_extension or_missing truthy returns ◌>>=◌
  locate_in_clone s clone = do
    resolved ← try_with_extension (try_in_clone s clone) s.file_path (some s.default_extension)
    path ← or_missing s (truthy resolved)
    returns (clone.dir, path, s)

  -- `_resolveFile()`: the directory, the path in it, and the source behind the clone.
  unfoldable pub resolve_git_file : GitSource → Io (GitState host) (Text × Text × GitSource)
  unfolding ensure_repo locate_in_clone ◌>>=◌
  resolve_git_file s = do
    clone ← ensure_repo host s.repo s.ref
    locate_in_clone (with_oid clone.oid s) clone

  -- `read()`
  unfoldable pub read_git : GitSource → Io (GitState host) (Text × GitSource)
  unfolding resolve_git_file join_paths beyond returns ◌>>=◌
  read_git s = do
    (dir, path, s') ← resolve_git_file s
    content ← beyond host (read_file (join_paths dir path))
    returns (content, s')

abbrev pub keep_oid : Option Text → Result GitSource → Result GitSource
keep_oid oid (err e) = err e
keep_oid oid (ok s) = ok (record {
  repo = s.repo;
  ref = s.ref;
  file_path = s.file_path;
  default_extension = s.default_extension;
  oid = oid;
})

-- `joinRelative(relPath)`
unfoldable pub join_git : GitSource → Text → Result GitSource
unfolding new_git dirname join_paths
join_git s path =
    keep_oid s.oid
      (new_git s.repo s.ref (join_paths (dirname s.file_path) path) (some s.default_extension))
