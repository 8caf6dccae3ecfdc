-- ===== src/Source.antt =====
-- src/sources/Source.js, detectScheme.js, resolveSource.js, sanitizeRelativePath.js, tryWithExtension.js:
-- what an include source is, and how a reference becomes one.
pub mod Scheme
pub mod RelativePath
pub mod Resolving
pub mod Git
pub mod Contained
pub mod Oci
pub mod Local
pub mod Http
use dockerfile_x.Common.{
  Bool, true, false, Option, none, some, List, [], ◌∷◌, ◌++◌, Text, codes, if◌then◌else◌,
}
use dockerfile_x.Errors.{Result, ok, err, plain, ◌>>=◌}
use Scheme.{SourceScheme, http, git, oci, local, detect_scheme, unknown_scheme}

-- The four classes of sources behind their common interface. A method that changes the object returns
-- the changed object. `with_default_extension` is the method of that name, which LocalSource alone has.
-- `none` for an extension is `undefined`. The last argument of `new_local` is the directory, if any, that
-- `relativeBase` is resolved from.
pub record SourceApi : Type 1 where
  pub World : Type 0
  pub Source : Type 0
  pub new_http : Text → Option Text → Result Source
  pub parse_git : Text → Option Text → Result Source
  pub parse_oci : Text → Option Text → Result Source
  pub new_local : Text → Text → Option Text → Option Text → Result Source
  pub join_relative : Source → Text → Result Source
  pub with_default_extension : Source → Option (Text → Source)
  pub resolve : Source → World → Result Source × World
  pub read : Source → World → Result (Text × Source) × World
  pub key : Source → Text
  pub display_path : Source → Text → Text
  pub stage_alias_base : Source → Text → Text
  pub fs_path : Source → Option Text

module _ (api : SourceApi) where
  open api use {
    Source, new_http, parse_git, parse_oci, new_local, join_relative, with_default_extension,
  }

  -- `defaultExtension !== undefined && child.withDefaultExtension ? … : child`
  abbrev pub adapt : Source → Option Text → Source
  adapt child none = child
  adapt child (some extension) = elim (with_default_extension child) [
    | none ↦ child
    | some with_extension ↦ with_extension extension
  ]

  abbrev pub unsupported : Text → Text
  unsupported reference =
      codes "Unsupported include scheme: "
      ++ (reference ++ codes " (expected git+, oci://, https?://, or a relative/absolute path)")

  abbrev resolve_local : Text → Option Source → Text → Option Text → Result Source
  resolve_local reference (some parent) docker_context extension = do
    child ← join_relative parent reference
    ok (adapt child extension)
  resolve_local reference none docker_context extension =
      new_local reference docker_context extension none

  unfoldable pub resolve_source : Text → Option Source → Text → Option Text → Result Source
  unfolding detect_scheme unknown_scheme
  resolve_source reference parent docker_context extension = elim (detect_scheme reference) [
    | http ↦ new_http reference extension
    | git ↦ parse_git reference extension
    | oci ↦ parse_oci reference extension
    | local ↦
        if unknown_scheme reference
        then err (plain (unsupported reference))
        else resolve_local reference parent docker_context extension
  ]
