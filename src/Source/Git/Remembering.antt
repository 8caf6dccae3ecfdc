-- ===== src/Source/Git/Remembering.antt =====
-- The objects that are remembered keep full names while a source is read.
use dockerfile_x.Common.{Option, none, some, List, [], ◌∷◌, Text, codes}
use dockerfile_x.Io.Ensures.{
  Any, Ensures-returns-Any, Ensures-throws, Ensures-if, Ensures-bind-Any, Ensures-of_result-Any,
  ensure_rules, Ensures-Any,
}
use dockerfile_x.Spawn.{spawn_cmd}
use dockerfile_x.Io.{ensure_dir}
use dockerfile_x.Source.Contained.Keeping.{Ensures-assert_contained_real}
use dockerfile_x.Source.RelativePath.Keeping.{Ensures-try_with_extension}
use dockerfile_x.Source.Git.{GitSource}
use dockerfile_x.Source.Git.Fetch.{
  GitHost, Clone, run_git, in_dir, remote_args, fetch_ref_args, change_memo, populated_oid,
  fetch_sha, clone_branch, move_clone, clone_unless, with_clone, clone_or, ensure_repo,
}
use dockerfile_x.Source.Git.Pinned.{KeepsOids, KeepsOids-beyond, KeepsOids-get}
use dockerfile_x.Source.Git.Read.{
  with_sparse, check_out, ensure_path, is_there, try_in_clone, or_missing, locate_in_clone,
  resolve_git_file, read_git,
}

module _ {W : Type 0} (host : GitHost W) where
  KeepsOids-populated_oid : (dir : Text) → KeepsOids host Any (populated_oid host dir)
  unfolding populated_oid
  KeepsOids-populated_oid dir = search (ensure_rules, KeepsOids-beyond)

  ran : (args : List Text) → KeepsOids host Any (run_git host args)
  ran args = KeepsOids-beyond host (spawn_cmd host.child_process (codes "git") none args)

  KeepsOids-fetch_sha : (repo ref dir : Text) → KeepsOids host Any (fetch_sha host repo ref dir)
  unfolding fetch_sha
  KeepsOids-fetch_sha repo ref dir =
      Ensures-bind-Any _ _ (KeepsOids-beyond host (ensure_dir host.mkdir dir)) (λ _.
        Ensures-bind-Any _ _ (ran (in_dir dir (codes "init" ∷ codes "--quiet" ∷ []))) (λ _.
          Ensures-bind-Any _ _ (ran (in_dir dir (remote_args repo))) (λ _.
            Ensures-bind-Any _ _ (ran (in_dir dir (fetch_ref_args ref)))
              (λ _. search (ensure_rules, KeepsOids-beyond)))))

  KeepsOids-clone_branch :
      (repo ref dir : Text) → KeepsOids host Any (clone_branch host repo ref dir)
  unfolding clone_branch
  KeepsOids-clone_branch repo ref dir = search (ensure_rules, KeepsOids-beyond)

  KeepsOids-move_clone : (temp_dir dir : Text) → KeepsOids host Any (move_clone host temp_dir dir)
  unfolding move_clone
  KeepsOids-move_clone temp_dir dir = search (ensure_rules, KeepsOids-beyond)

  KeepsOids-clone_unless :
      (repo ref dir : Text) (o : Option Text)
      → KeepsOids host Any (clone_unless host repo ref dir o)
  unfolding clone_unless
  KeepsOids-clone_unless repo ref dir (some oid) = Ensures-returns-Any _
  KeepsOids-clone_unless repo ref dir none = search (
    ensure_rules, KeepsOids-beyond, KeepsOids-fetch_sha, KeepsOids-clone_branch,
    KeepsOids-move_clone,
  )

  KeepsOids-with_clone :
      (key : Text) (clone : Clone)
      → KeepsOids host Any (change_memo host (with_clone host key clone))
  unfolding change_memo
  KeepsOids-with_clone key clone = record { at = λ (memo, w) p. (p, tt) }

  KeepsOids-clone_or :
      (repo ref : Text) (o : Option Clone) → KeepsOids host Any (clone_or host repo ref o)
  unfolding clone_or
  KeepsOids-clone_or repo ref (some clone) = Ensures-returns-Any clone
  KeepsOids-clone_or repo ref none = search (
    ensure_rules, KeepsOids-beyond, KeepsOids-populated_oid, KeepsOids-clone_unless,
    KeepsOids-with_clone,
  )

  KeepsOids-ensure_repo : (repo ref : Text) → KeepsOids host Any (ensure_repo host repo ref)
  unfolding ensure_repo
  KeepsOids-ensure_repo repo ref =
      Ensures-bind-Any _ _ (Ensures-Any _ (KeepsOids-get host))
        (λ memo. KeepsOids-clone_or repo ref _)

  KeepsOids-with_sparse :
      (key arg : Text) → KeepsOids host Any (change_memo host (with_sparse host key arg))
  unfolding change_memo with_sparse
  KeepsOids-with_sparse key arg = record { at = λ (memo, w) p. (p, tt) }

  KeepsOids-check_out : (key dir arg : Text) → KeepsOids host Any (check_out host key dir arg)
  unfolding check_out
  KeepsOids-check_out key dir arg = search (ensure_rules, KeepsOids-beyond, KeepsOids-with_sparse)

  KeepsOids-ensure_path :
      (key : Text) (clone : Clone) (path : Text)
      → KeepsOids host Any (ensure_path host key clone path)
  unfolding ensure_path
  KeepsOids-ensure_path key clone path =
      Ensures-bind-Any _ _ (Ensures-Any _ (KeepsOids-get host))
        (λ memo. Ensures-if _ _ _ (Ensures-returns-Any tt) (KeepsOids-check_out key clone.dir _))

  KeepsOids-try_in_clone :
      (s : GitSource) (clone : Clone) (path : Text)
      → KeepsOids host Any (try_in_clone host s clone path)
  unfolding try_in_clone is_there
  KeepsOids-try_in_clone s clone path = Ensures-bind-Any _ _ (Ensures-of_result-Any _) (λ _.
      Ensures-bind-Any _ _ (KeepsOids-ensure_path _ clone path)
        (λ _. search (ensure_rules, KeepsOids-beyond, Ensures-assert_contained_real)))

  KeepsOids-or_missing :
      (s : GitSource) (o : Option Text) → KeepsOids host Any (or_missing host s o)
  unfolding or_missing
  KeepsOids-or_missing s none = Ensures-throws _
  KeepsOids-or_missing s (some path) = Ensures-returns-Any path

  KeepsOids-resolve_git_file : (s : GitSource) → KeepsOids host Any (resolve_git_file host s)
  unfolding resolve_git_file locate_in_clone
  KeepsOids-resolve_git_file s = search (
    ensure_rules, KeepsOids-ensure_repo, Ensures-try_with_extension, KeepsOids-try_in_clone,
    KeepsOids-or_missing,
  )

  -- Reading a source leaves the objects that are remembered with full names, also if it throws.
  pub read_git-KeepsOids : (s : GitSource) → KeepsOids host Any (read_git host s)
  unfolding read_git
  read_git-KeepsOids s = search (ensure_rules, KeepsOids-beyond, KeepsOids-resolve_git_file)
