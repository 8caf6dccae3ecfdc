-- ===== src/Source/Oci/Read.antt =====
-- src/sources/OciSource.js: `resolve` and `read`.
use dockerfile_x.Common.{
  Bool, true, false, Option, none, some, [], ◌∷◌, ◌++◌, Text, codes, if◌then◌else◌,
}
use dockerfile_x.Common.Lookup.{find}
use dockerfile_x.Errors.{Result, err, plain, remote_file_not_found}
use dockerfile_x.Io.{Io, returns, throws, of_result, attempt, ◌>>=◌, ◌>>◌}
use dockerfile_x.Path.{join_paths, resolve_in}
use dockerfile_x.PostProcess.{truthy}
use dockerfile_x.Source.Contained.{assert_contained, assert_contained_real}
use dockerfile_x.Source.RelativePath.{try_with_extension}
use dockerfile_x.Source.Oci.{OciSource, oras_ref, oci_key, ident}
use dockerfile_x.Source.Oci.Digest.{Value, string, undefined, other, assert_valid_digest}
use dockerfile_x.Source.Oci.Registry.{run_oras, fetch_args}
use dockerfile_x.Source.Oci.Artifact.{if_valid, oras_with, ensure_artifact}
use dockerfile_x.Source.Oci.Fetch.{
  Host, Memo, OciState, outside, update_memo, read_memo, resolve_docker_config_dir,
}

module _ {W : Type 0} (host : Host W) where
  open host use {
    cwd, plain_http_variable, temp_suffix, packages, stringify, parse_descriptor, parse_index,
    child_process, read_file, real_path, mkdir, remove, rename, access,
  }

  abbrev pub with_digest : Text → OciSource → OciSource
  with_digest digest s = record {
    registry = s.registry;
    repo = s.repo;
    tag = s.tag;
    digest = some digest;
    file_path = s.file_path;
    default_extension = s.default_extension;
  }

  -- The digest of a descriptor, if it is valid.
  unfoldable pub descriptor_digest : Text → Option Value → Result Text
  unfolding assert_valid_digest
  descriptor_digest ref none = err (
      plain
        (codes "oras manifest fetch --descriptor " ++ (ref ++ codes ": could not parse digest")))
  descriptor_digest ref (some (string digest)) =
      if_valid host digest
        (assert_valid_digest stringify (string digest) (codes "oras manifest fetch " ++ ref))
  descriptor_digest ref (some undefined) =
      if_valid host []
        (assert_valid_digest stringify undefined (codes "oras manifest fetch " ++ ref))
  descriptor_digest ref (some (other shown)) =
      if_valid host []
        (assert_valid_digest stringify (other shown) (codes "oras manifest fetch " ++ ref))

  abbrev pub add_digest : Text → Text → Memo → Memo
  add_digest ref digest memo = record {
    artifacts = memo.artifacts;
    digests = (ref, digest) ∷ memo.digests;
    config_dir = memo.config_dir;
  }

  unfoldable pub digest_or : Text → Text → Option Text → Io (OciState host) Text
  unfolding run_oras of_result returns descriptor_digest ◌>>=◌ resolve_docker_config_dir
  digest_or registry ref (some digest) = returns digest
  digest_or registry ref none = do
    config ← resolve_docker_config_dir host
    stdout ← run_oras (oras_with host config) plain_http_variable registry (fetch_args ref)
    digest ← of_result (descriptor_digest ref (parse_descriptor stdout))
    update_memo host (add_digest ref digest)
    returns digest

  unfoldable pub resolve_unless : OciSource → Option Text → Io (OciState host) OciSource
  unfolding digest_or find oras_ref returns ◌>>=◌
  resolve_unless s (some digest) = returns s
  resolve_unless s none = do
    memo ← read_memo host
    digest ← digest_or s.registry (oras_ref s) (find (oras_ref s) memo.digests)
    returns (with_digest digest s)

  -- `resolve()`
  unfoldable pub resolve_oci : OciSource → Io (OciState host) OciSource
  unfolding resolve_unless truthy
  resolve_oci s = resolve_unless s (truthy s.digest)

  unfoldable pub is_accessible : Text → Io (OciState host) Bool
  unfolding attempt returns ◌>>=◌
  is_accessible full = attempt (outside host (access full) >> returns true) (λ e. returns false)

  -- `tryPath(rel)`
  unfoldable pub try_path : OciSource → Text → Text → Io (OciState host) (Option Text)
  unfolding assert_contained assert_contained_real resolve_in oci_key of_result returns ◌>>=◌
      is_accessible
  try_path s dir rel = do
    let full = resolve_in cwd dir rel
    of_result (assert_contained cwd dir full (oci_key s))
    accessible ← is_accessible full
    if accessible
        then (do
          assert_contained_real (λ path. outside host (real_path path)) cwd dir full (oci_key s)
          returns (some rel))
        else returns none

  unfoldable pub or_not_found : OciSource → Option Text → Io (OciState host) Text
  unfolding throws returns oci_key
  or_not_found s none = throws (remote_file_not_found (oci_key s))
  or_not_found s (some rel) = returns rel

  abbrev pub pinned : Option Text → OciSource → OciSource
  pinned none s = s
  pinned (some digest) s = with_digest digest s

  -- `_resolveFile()` behind the pull.
  unfoldable pub locate : OciSource → Text → Io (OciState host) (Text × Text × OciSource)
  unfolding try_path try_with_extension or_not_found truthy returns ◌>>=◌
  locate s dir = do
    resolved ← try_with_extension (try_path s dir) s.file_path (some s.default_extension)
    rel ← or_not_found s (truthy resolved)
    returns (dir, rel, s)

  -- `_resolveFile()`: the directory, the path in it, and the source behind the pull.
  unfoldable pub resolve_file : OciSource → Io (OciState host) (Text × Text × OciSource)
  unfolding ensure_artifact locate truthy ◌>>=◌
  resolve_file s = do
    entry ← ensure_artifact host s.registry s.repo (ident (truthy s.digest) s.tag)
    locate (pinned (truthy entry.digest) s) entry.dir

  -- `read()`
  unfoldable pub read_oci : OciSource → Io (OciState host) (Text × OciSource)
  unfolding resolve_file join_paths returns ◌>>=◌
  read_oci s = do
    (dir, rel, s') ← resolve_file s
    content ← outside host (read_file (join_paths dir rel))
    returns (content, s')
