-- ===== src/Source/Git.antt =====
-- src/sources/GitSource.js: what a git source is, its references and keys. The clones, the caches and the
-- calls of git are not modelled.
pub mod RoundTrip
pub mod Fetch
pub mod Read
pub mod Pinned
pub mod Remembering
pub mod Served
use dockerfile_x.Common.{
  ℕ, Bool, true, false, ◌&&◌, ◌||◌, Option, none, some, List, [], ◌∷◌, ◌++◌, Text, codes, ◌==◌,
  if◌then◌else◌, starts_with, strip_prefix_i,
}
use dockerfile_x.Common.Cut.{cut}
use dockerfile_x.Errors.{Result, ok, err, plain, ◌>>=◌, ◌>>◌}
use dockerfile_x.PostProcess.{truthy}
use dockerfile_x.Source.RelativePath.{sanitize_relative_path}

-- The fields of the class; `_oid` is `none` until the reference is resolved.
pub record GitSource : Type 0 where
  pub repo : Text
  pub ref : Text
  pub file_path : Text
  pub default_extension : Text
  pub oid : Option Text

-- `rejectOptionLikeArg(value, kind)`
unfoldable pub reject_option_like_arg : Text → Text → Result (Unit {0})
unfolding starts_with
reject_option_like_arg value kind =
    if starts_with (codes "-") value
    then err (
        plain (
          codes "Invalid git "
          ++ (kind
              ++ (codes ": "
                  ++ (value
                      ++ codes " (must not start with '-' to avoid being parsed as a flag)")))))
    else ok tt

-- `` `git+${repo}#${ref}:${filePath}` ``
abbrev pub git_reference : Text → Text → Text → Text
git_reference repo ref file_path = codes "git+" ++ (repo ++ b'#' ∷ (ref ++ b':' ∷ file_path))

abbrev pub or_dockerfile : Option Text → Text
or_dockerfile none = codes ".dockerfile"
or_dockerfile (some extension) = extension

-- `new GitSource({ repo, ref, filePath, defaultExtension })`
unfoldable pub new_git : Text → Text → Text → Option Text → Result GitSource
unfolding reject_option_like_arg sanitize_relative_path
new_git repo ref file_path extension = do
  reject_option_like_arg repo (codes "repo URL")
  reject_option_like_arg ref (codes "ref")
  cleaned ← sanitize_relative_path file_path (git_reference repo ref file_path)
  ok (record {
    repo = repo;
    ref = ref;
    file_path = cleaned;
    default_extension = or_dockerfile extension;
    oid = none;
  })

abbrev invalid : Text → Result GitSource
invalid reference = err (
    plain
      (codes "Invalid git source " ++ (reference ++ codes ": expected git+<git-url>#<ref>:<path>")))

abbrev pub with_fragment : Text → Text → Option (Text × Text) → Option Text → Result GitSource
unfolding new_git
with_fragment reference repo none extension = invalid reference
with_fragment reference repo (some (ref, file_path)) extension =
    new_git repo ref file_path extension

abbrev pub with_repo : Text → Option (Text × Text) → Option Text → Result GitSource
unfolding cut with_fragment
with_repo reference none extension = invalid reference
with_repo reference (some (repo, fragment)) extension =
    with_fragment reference repo (cut b':' fragment) extension

abbrev pub without_scheme : Text → Option Text → Text
without_scheme reference none = reference
without_scheme reference (some stripped) = stripped

-- `GitSource.parse(reference, { defaultExtension })`
unfoldable pub parse_reference : Text → Option Text → Result GitSource
unfolding cut with_repo strip_prefix_i
parse_reference reference extension =
    with_repo reference
      (cut b'#' (without_scheme reference (strip_prefix_i (codes "git+") reference))) extension

abbrev pub or_ref : Text → Option Text → Text
or_ref ref none = ref
or_ref ref (some oid) = oid

-- `key()` and `stageAliasBase()`
unfoldable pub git_key : GitSource → Text
unfolding truthy
git_key s = git_reference s.repo (or_ref s.ref (truthy s.oid)) s.file_path

-- `displayPath()`
unfoldable pub git_display_path : GitSource → Text
git_display_path s = git_reference s.repo s.ref s.file_path
