-- ===== src/Tests/Clones.antt =====
-- A git repository with two directories, each with one file.
use dockerfile_x.Common.{
  ◌≡◌, refl, ◌&&◌, ◌||◌, none, some, List, [], ◌∷◌, Text, codes, same, includes, if◌then◌else◌,
  trim,
}
use dockerfile_x.Errors.{ok, err, command_failed, remote_file_not_found}
use dockerfile_x.Names.{short_hash}
use dockerfile_x.Spawn.{Run, ExecOptions, spawn_cmd}
use dockerfile_x.Tests.World.{packages}
use dockerfile_x.Io.{Io, returns, throws, of_result, attempt, ◌>>=◌}
use dockerfile_x.Source.Contained.Serving.{IsServed}
use dockerfile_x.Source.Git.{GitSource}
use dockerfile_x.Source.Git.Fetch.{GitHost, GitMemo, GitState, beyond, change_memo, get_memo}
use dockerfile_x.Source.Git.Pinned.{KeepsOids, IsPinnedTo, resolve_git-IsPinnedTo}
use dockerfile_x.Source.Git.Read.{resolve_git_file, resolve_git}
use dockerfile_x.Source.Git.Served.{real_in, resolve_git_file-IsServed}

-- The world is the list of directories in the working tree: `sparse-checkout set` replaces it.
abbrev set_dirs : List Text → List Text → List Text
unfolding same
set_dirs (command ∷ set ∷ dashes ∷ dir ∷ []) w =
    if same command (codes "sparse-checkout") && same set (codes "set") then dir ∷ [] else w
set_dirs _ w = w

abbrev answer : Run
answer = record { error_message = none; stdout = codes "1f\n"; stderr = [] }

abbrev failure : Run
failure = record { error_message = some (codes "no"); stdout = []; stderr = [] }

unfoldable git : Text → List Text → ExecOptions → List Text → Run × List Text
unfolding set_dirs
git bin (flag ∷ dir ∷ args) options w = (answer, set_dirs args w)
git bin _ options w = (failure, w)

unfoldable access : Text → Io (List Text) (Unit {0})
unfolding same includes
access path w =
    if same path (codes "/c/r-r/a/x") && includes (codes "a") w
      || same path (codes "/c/r-r/b/y") && includes (codes "b") w
    then (ok tt, w)
    else (err (command_failed [] []), w)

abbrev host : GitHost (List Text)
host = record {
  cwd = codes "/w";
  homedir = codes "/root";
  cache_dir_variable = some (codes "/c");
  temp_suffix = codes ".tmp";
  packages = record packages { sha256 = λ s. codes "r" };
  child_process = record { timeout_variable = none; exec_file = git };
  read_file = λ path w. (ok [], w);
  real_path = λ path w. (ok path, w);
  mkdir = λ path recursive w. (ok tt, w);
  remove = λ path w. (ok tt, w);
  rename = λ a b w. (ok tt, w);
  access = access;
}

abbrev file : Text → GitSource
file path = record {
  repo = codes "u";
  ref = codes "main";
  file_path = path;
  default_extension = [];
  oid = some (codes "1f");
}

abbrev with_dirs : List Text → GitMemo
with_dirs dirs = record {
  clones =
      (codes "u#main", record { dir = codes "/c/r-r"; oid = codes "1f"; sparse_set = dirs }) ∷ [];
  oids = [];
}

abbrev fresh : GitState host
fresh = (record { clones = []; oids = [] }, [])

abbrev after_one : GitState host
after_one = (with_dirs (codes "a" ∷ []), codes "a" ∷ [])

first_found :
    resolve_git_file host (file (codes "a/x")) fresh
    ≡ (ok (codes "/c/r-r", codes "a/x", file (codes "a/x")), after_one)
unfolding resolve_git_file beyond change_memo get_memo returns throws of_result attempt ◌>>=◌ git
    spawn_cmd short_hash access trim
first_found = refl

resolve_git_file-IsServed_example :
    IsServed (real_in host) host.cwd (codes "/c/r-r") (codes "a/x") after_one
resolve_git_file-IsServed_example =
    resolve_git_file-IsServed host (file (codes "a/x")) (file (codes "a/x")) (codes "/c/r-r")
      (codes "a/x") fresh after_one first_found

-- Behind a file of another directory, the first file is missed: its directory is remembered as checked out,
-- and the working tree has it no more.
abbrev after_two : GitState host
after_two = (with_dirs (codes "b" ∷ codes "a" ∷ []), codes "b" ∷ [])

second_found :
    resolve_git_file host (file (codes "b/y")) after_one
    ≡ (ok (codes "/c/r-r", codes "b/y", file (codes "b/y")), after_two)
unfolding resolve_git_file beyond change_memo get_memo returns throws of_result attempt ◌>>=◌ git
    spawn_cmd short_hash access trim
second_found = refl

first_missed :
    resolve_git_file host (file (codes "a/x")) after_two
    ≡ (err (remote_file_not_found (codes "u#main:a/x")), after_two)
unfolding resolve_git_file beyond change_memo get_memo returns throws of_result attempt ◌>>=◌ git
    spawn_cmd short_hash access trim
first_missed = refl

resolve_git-IsPinnedTo_example :
    KeepsOids host (IsPinnedTo host (file (codes "a/x"))) (resolve_git host (file (codes "a/x")))
resolve_git-IsPinnedTo_example = resolve_git-IsPinnedTo host (file (codes "a/x"))
