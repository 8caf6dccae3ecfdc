-- ===== src/Source/Oci/Artifact.antt =====
-- src/sources/OciSource.js: the pull of an artifact into the cache.
use dockerfile_x.Names.{short_hash}
use dockerfile_x.Spawn.{spawn_cmd}
use dockerfile_x.Common.{◌||◌, Option, none, some, List, [], ◌∷◌, ◌++◌, Text, codes, if◌then◌else◌}
use dockerfile_x.Common.Lookup.{find}
use dockerfile_x.Errors.{Result, ok, err}
use dockerfile_x.Io.{ensure_dir, Io, returns, throws, of_result, attempt, has_code, ◌>>=◌, ◌>>◌}
use dockerfile_x.Path.{join_paths}
use dockerfile_x.PostProcess.{truthy}
use dockerfile_x.Source.Oci.Digest.{Value, string, undefined, other, assert_valid_digest}
use dockerfile_x.Source.Oci.Registry.{run_oras, pull_args}
use dockerfile_x.Source.Oci.Fetch.{
  Entry, Host, Memo, OciState, outside, exists, update_memo, read_memo, oci_cache_root,
  find_oras_bin, resolve_docker_config_dir,
}

module _ {W : Type 0} (host : Host W) where
  open host use {
    cwd, plain_http_variable, temp_suffix, packages, stringify, parse_descriptor, parse_index,
    child_process, read_file, real_path, mkdir, remove, rename, access,
  }

  abbrev pub if_valid {ℓ} : {A : Type ℓ} → A → Result (Unit {0}) → Result A
  if_valid a (ok u) = ok a
  if_valid a (err e) = err e

  -- The digest of an index that was read.
  abbrev pub index_digest : Text → Option Value → Result (Option Text)
  unfolding assert_valid_digest
  index_digest dir none = ok none
  index_digest dir (some undefined) = ok none
  index_digest dir (some (string [])) = ok none
  index_digest dir (some (other shown)) =
      if_valid none (assert_valid_digest stringify (other shown) (dir ++ codes "/index.json"))
  index_digest dir (some (string (c ∷ digest))) =
      if_valid (some (c ∷ digest))
        (assert_valid_digest stringify (string (c ∷ digest)) (dir ++ codes "/index.json"))

  abbrev pub digest_of_index : Text → Option Text → Result (Option Text)
  unfolding index_digest
  digest_of_index dir none = ok none
  digest_of_index dir (some index_json) = index_digest dir (parse_index index_json)

  -- `readPulledDigest(dir)`: an index that cannot be read is none.
  unfoldable pub read_pulled_digest : Text → Io (OciState host) (Option Text)
  unfolding digest_of_index join_paths returns of_result attempt ◌>>=◌
  read_pulled_digest dir = do
    index_json ←
        attempt
          (do s ← outside host (read_file (join_paths dir (codes "index.json"))); returns (some s))
          (λ e. returns none)
    of_result (digest_of_index dir index_json)

  -- `m.catch(() => {})`
  unfoldable pub best_effort : Io (OciState host) (Unit {0}) → Io (OciState host) (Unit {0})
  unfolding attempt returns
  best_effort m = attempt m (λ e. returns tt)

  -- Run oras with the config directory in its environment.
  abbrev pub oras_with : Option Text → List Text → Io (OciState host) Text
  oras_with config args =
      outside host (spawn_cmd child_process (find_oras_bin host) (truthy config) args)

  -- The pull into a directory of its own, which is removed again on a failure.
  unfoldable pub pull_into : Text → Option Text → Text → Text → Io (OciState host) (Option Text)
  unfolding run_oras attempt throws ◌>>=◌ read_pulled_digest best_effort
  pull_into registry config dir ref =
      attempt
        (do
          run_oras (oras_with config) plain_http_variable registry (pull_args dir ref)
          read_pulled_digest dir)
        (λ e. do best_effort (outside host (remove dir)); throws e)

  -- The move into the cache, which another process may have filled.
  unfoldable pub move_into : Text → Text → Io (OciState host) (Unit {0})
  unfolding attempt throws ◌>>=◌ has_code best_effort
  move_into temp_dir dir = attempt (outside host (rename temp_dir dir)) (λ e.
      if has_code (codes "ENOTEMPTY") e || has_code (codes "EEXIST") e
      then outside host (remove temp_dir)
      else (do best_effort (outside host (remove temp_dir)); throws e))

  unfoldable pub populate : Text → Text → Text → Io (OciState host) Entry
  unfolding pull_into move_into returns ◌>>=◌ resolve_docker_config_dir
  populate registry ref dir = do
    let temp_dir = dir ++ temp_suffix
    outside host (remove temp_dir)
    outside host (ensure_dir mkdir temp_dir)
    config ← resolve_docker_config_dir host
    digest ← pull_into registry config temp_dir ref
    move_into temp_dir dir
    returns (record { dir = dir; digest = digest })

  -- The work of `ensureArtifact` for a key that is not in the memo.
  unfoldable pub fetch_artifact : Text → Text → Io (OciState host) Entry
  unfolding populate returns ◌>>=◌ read_pulled_digest join_paths
  fetch_artifact registry ref = do
    outside host (ensure_dir mkdir (oci_cache_root host))
    let dir = join_paths (oci_cache_root host) (short_hash packages ref 16)
    populated ← exists host (join_paths dir (codes "index.json"))
    if populated
        then (do digest ← read_pulled_digest dir; returns (record { dir = dir; digest = digest }))
        else populate registry ref dir

  abbrev pub with_artifact : Text → Entry → Memo → Memo
  with_artifact ref entry memo = record {
    artifacts = (ref, entry) ∷ memo.artifacts;
    digests = memo.digests;
    config_dir = memo.config_dir;
  }

  unfoldable pub artifact_or : Text → Text → Option Entry → Io (OciState host) Entry
  unfolding fetch_artifact returns ◌>>=◌
  artifact_or registry ref (some entry) = returns entry
  artifact_or registry ref none = do
    entry ← fetch_artifact registry ref
    update_memo host (with_artifact ref entry)
    returns entry

  -- `ensureArtifact(registry, repo, tagOrDigest)`
  unfoldable pub ensure_artifact : Text → Text → Text → Io (OciState host) Entry
  unfolding artifact_or find ◌>>=◌
  ensure_artifact registry repo id = do
    let ref = registry ++ b'/' ∷ (repo ++ id)
    memo ← read_memo host
    artifact_or registry ref (find ref memo.artifacts)
