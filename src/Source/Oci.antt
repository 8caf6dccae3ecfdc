-- ===== src/Source/Oci.antt =====
-- src/sources/OciSource.js: what an OCI source is, its references and keys. `resolve` and `read` stand in
-- the child `Fetch`.
pub mod Digest
pub mod DigestForm
pub mod RoundTrip
pub mod Registry
pub mod PlainHttp
pub mod Fetch
pub mod Artifact
pub mod Read
pub mod Admitted
pub mod Pinned
pub mod Remembering
use dockerfile_x.Common.{
  ℕ, Bool, true, false, ◌&&◌, ◌||◌, Option, none, some, List, [], ◌∷◌, ◌++◌, Text, codes, ◌==◌,
  if◌then◌else◌, same, starts_with, strip_prefix_i,
}
use dockerfile_x.Common.Cut.{cut}
use dockerfile_x.Errors.{Result, ok, err, plain, ◌>>=◌, ◌>>◌}
use dockerfile_x.Path.{dirname, join_paths}
use dockerfile_x.PostProcess.{truthy}
use dockerfile_x.Source.Git.{or_dockerfile}
use dockerfile_x.Source.RelativePath.{sanitize_relative_path}
use Digest.{digest_match}

-- The fields of the class; `tag` and `digest` are `none` for null.
pub record OciSource : Type 0 where
  pub registry : Text
  pub repo : Text
  pub tag : Option Text
  pub digest : Option Text
  pub file_path : Text
  pub default_extension : Text

-- `rejectOptionLikeArg(value, kind)`
unfoldable pub reject_option_like : Text → Text → Result (Unit {0})
unfolding starts_with
reject_option_like value kind =
    if starts_with (codes "-") value
    then err (
        plain (
          codes "Invalid oci "
          ++ (kind
              ++ (codes ": "
                  ++ (value
                      ++ codes " (must not start with '-' to avoid being parsed as a flag)")))))
    else ok tt

-- `if (value) rejectOptionLikeArg(value, kind)`
abbrev pub reject_if : Option Text → Text → Result (Unit {0})
unfolding reject_option_like
reject_if none kind = ok tt
reject_if (some value) kind = reject_option_like value kind

abbrev pub or_empty : Option Text → Text
or_empty none = []
or_empty (some s) = s

-- `digest ? `@${digest}` : `:${tag}``
abbrev pub ident : Option Text → Option Text → Text
ident (some digest) tag = b'@' ∷ digest
ident none tag = b':' ∷ or_empty tag

-- `tag ? `:${tag}` : `@${digest}``
abbrev pub given_ident : Option Text → Option Text → Text
given_ident (some tag) digest = b':' ∷ tag
given_ident none digest = b'@' ∷ or_empty digest

abbrev pub oci_reference : Text → Text → Text → Text → Text
oci_reference registry repo id file_path =
    codes "oci://" ++ (registry ++ b'/' ∷ (repo ++ (id ++ b'#' ∷ file_path)))

abbrev pub require_version : Text → Text → Option Text → Option Text → Result (Unit {0})
require_version registry repo (some tag) digest = ok tt
require_version registry repo none (some digest) = ok tt
require_version registry repo none none = err (
    plain (
      codes "OciSource requires either a tag or a digest (got neither for "
      ++ (registry ++ b'/' ∷ (repo ++ codes ")"))))

-- `new OciSource({ … })`, where an empty tag or digest is falsy.
unfoldable pub new_oci_at :
    Text → Text → Option Text → Option Text → Text → Option Text → Result OciSource
unfolding reject_option_like reject_if sanitize_relative_path
new_oci_at registry repo tag digest file_path extension = do
  require_version registry repo tag digest
  reject_option_like registry (codes "registry")
  reject_option_like repo (codes "repo")
  reject_if tag (codes "tag")
  reject_if digest (codes "digest")
  cleaned ←
      sanitize_relative_path file_path
        (oci_reference registry repo (given_ident tag digest) file_path)
  ok (record {
    registry = registry;
    repo = repo;
    tag = tag;
    digest = digest;
    file_path = cleaned;
    default_extension = or_dockerfile extension;
  })

unfoldable pub new_oci :
    Text → Text → Option Text → Option Text → Text → Option Text → Result OciSource
unfolding new_oci_at truthy
new_oci registry repo tag digest file_path extension =
    new_oci_at registry repo (truthy tag) (truthy digest) file_path extension

abbrev pub expected_form : Text → Result OciSource
expected_form reference = err (
    plain (
      codes "Invalid oci source "
      ++ (reference ++ codes ": expected oci://<registry>/<repo>(:<tag>|@<digest>)#<path>")))

-- The text before the last `c`, and the text behind it.
abbrev pub last_here : ℕ → ℕ → Text → Option (Text × Text) → Option (Text × Text)
last_here c x s none = if x == c then some ([], s) else none
last_here c x s (some (before, behind)) = some (x ∷ before, behind)

unfoldable pub cut_last : ℕ → Text → Option (Text × Text)
cut_last c [] = none
cut_last c (x ∷ s) = last_here c x s (cut_last c s)

-- The tag form: `repo:tag`.
abbrev pub with_tag : Text → Text → Option (Text × Text) → Text → Option Text → Result OciSource
unfolding new_oci
with_tag reference registry none file_path extension = expected_form reference
with_tag reference registry (some (repo, tag)) file_path extension =
    new_oci registry repo (some tag) none file_path extension

-- The digest form `repo@digest`, if it matches, before the tag form.
abbrev pub with_version :
    Text → Text → Text → Option (Text × Text) → Text → Option Text → Result OciSource
unfolding with_tag cut_last new_oci
with_version reference registry rest none file_path extension =
    with_tag reference registry (cut_last b':' rest) file_path extension
with_version reference registry rest (some ([], digest)) file_path extension =
    err (plain (codes "Invalid oci source " ++ (reference ++ codes ": missing repo before digest")))
with_version reference registry rest (some (c ∷ repo, digest)) file_path extension =
    new_oci registry (c ∷ repo) none (some digest) file_path extension

abbrev pub with_registry : Text → Option (Text × Text) → Text → Option Text → Result OciSource
unfolding with_version digest_match
with_registry reference none file_path extension = expected_form reference
with_registry reference (some (registry, rest)) file_path extension =
    with_version reference registry rest (digest_match rest) file_path extension

abbrev pub with_path : Text → Option (Text × Text) → Option Text → Result OciSource
unfolding with_registry cut
with_path reference none extension = expected_form reference
with_path reference (some (before, file_path)) extension =
    with_registry reference (cut b'/' before) file_path extension

abbrev pub without_oci : Text → Option Text → Text
without_oci reference none = reference
without_oci reference (some stripped) = stripped

-- `OciSource.parse(reference, { defaultExtension })`
unfoldable pub parse_oci_reference : Text → Option Text → Result OciSource
unfolding with_path cut strip_prefix_i
parse_oci_reference reference extension =
    with_path reference
      (cut b'#' (without_oci reference (strip_prefix_i (codes "oci://") reference))) extension

-- `_orasRef()`
unfoldable pub oras_ref : OciSource → Text
unfolding truthy
oras_ref s = s.registry ++ b'/' ∷ (s.repo ++ ident (truthy s.digest) s.tag)

-- `key()`, `displayPath()` and `stageAliasBase()`
unfoldable pub oci_key : OciSource → Text
unfolding truthy
oci_key s = oci_reference s.registry s.repo (ident (truthy s.digest) s.tag) s.file_path

-- `joinRelative(relPath)`
unfoldable pub join_oci : OciSource → Text → Result OciSource
unfolding new_oci dirname join_paths
join_oci s path =
    new_oci s.registry s.repo s.tag s.digest (join_paths (dirname s.file_path) path)
      (some s.default_extension)
