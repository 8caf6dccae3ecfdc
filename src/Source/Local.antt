-- ===== src/Source/Local.antt =====
-- src/sources/LocalSource.js: a file of the build context. `read_file` is `fs.readFile`, and `cwd` the working
-- directory.
pub mod Found
use dockerfile_x.Common.{
  Bool, true, false, Option, none, some, List, [], ◌∷◌, ◌++◌, Text, codes, if◌then◌else◌,
}
use dockerfile_x.Errors.{Thrown, Result, ok, err, missing_file}
use dockerfile_x.Io.{Io, returns, throws, attempt, has_code, ◌>>=◌}
use dockerfile_x.Path.{is_absolute, resolve_path, dirname, join_paths, relative}
use dockerfile_x.PostProcess.{truthy}
use dockerfile_x.Source.Git.{or_dockerfile}
use dockerfile_x.Source.RelativePath.{try_with_extension}

-- The fields of the class; `resolved_abs_path` is `none` until the file is read.
pub record LocalSource : Type 0 where
  pub abs_path : Text
  pub docker_context : Text
  pub default_extension : Text
  pub relative_base : Text
  pub resolved_abs_path : Option Text

abbrev pub or_parent : Option Text → Text → Text
unfolding dirname
or_parent none abs_path = dirname abs_path
or_parent (some base) abs_path = base

-- `a || b`
abbrev pub or_else_text : Option Text → Text → Text
or_else_text none d = d
or_else_text (some s) d = s

-- `new LocalSource({ filePath, dockerContext, defaultExtension, relativeBase })`
unfoldable pub new_local_source : Text → Text → Text → Option Text → Option Text → LocalSource
unfolding is_absolute resolve_path or_parent truthy
new_local_source cwd file_path docker_context extension base =
    let abs_path = if is_absolute file_path then file_path else resolve_path cwd file_path in
    record {
      abs_path = abs_path;
      docker_context = docker_context;
      default_extension = or_dockerfile extension;
      relative_base = or_parent (truthy base) abs_path;
      resolved_abs_path = none;
    }

-- `joinRelative(relPath)`
unfoldable pub join_local : Text → LocalSource → Text → LocalSource
unfolding new_local_source join_paths
join_local cwd s path =
    new_local_source cwd (join_paths s.relative_base path) s.docker_context
      (some s.default_extension) none

-- `withDefaultExtension(defaultExtension)`
unfoldable pub with_extension_local : Text → LocalSource → Text → LocalSource
unfolding new_local_source
with_extension_local cwd s extension =
    new_local_source cwd s.abs_path s.docker_context (some extension) (some s.relative_base)

-- `key()`
unfoldable pub local_key : LocalSource → Text
local_key s = codes "local:" ++ s.abs_path

-- `fsPath()`
unfoldable pub local_fs_path : LocalSource → Text
unfolding truthy
local_fs_path s = or_else_text (truthy s.resolved_abs_path) s.abs_path

abbrev pub shown_from : Text → Option Text → Text → Text
unfolding relative
shown_from cwd none target = target
shown_from cwd (some context) target = relative cwd context target

-- `displayPath(dockerContext)`
unfoldable pub local_display_path : Text → LocalSource → Text → Text
unfolding shown_from local_fs_path truthy
local_display_path cwd s context =
    shown_from cwd (truthy (some (or_else_text (truthy (some context)) s.docker_context)))
      (local_fs_path s)

-- `stageAliasBase(dockerContext)`
unfoldable pub local_stage_alias_base : Text → LocalSource → Text → Text
unfolding relative local_fs_path truthy
local_stage_alias_base cwd s context =
    relative cwd (or_else_text (truthy (some context)) s.docker_context) (local_fs_path s)

module _ {W : Type 0} (read_file : Text → Io W Text) (cwd : Text) where
  abbrev pub or_absent : Thrown → Io W (Option (Text × Text))
  unfolding has_code returns throws
  or_absent e = if has_code (codes "ENOENT") e then returns none else throws e

  -- A candidate: its content and its path, or a miss where there is no such file.
  unfoldable pub try_file : Text → Io W (Option (Text × Text))
  unfolding attempt or_absent returns ◌>>=◌
  try_file candidate =
      attempt (do content ← read_file candidate; returns (some (content, candidate))) or_absent

  abbrev pub with_path_found : Text → LocalSource → LocalSource
  with_path_found path s = record {
    abs_path = s.abs_path;
    docker_context = s.docker_context;
    default_extension = s.default_extension;
    relative_base = s.relative_base;
    resolved_abs_path = some path;
  }

  unfoldable pub or_missing_file : LocalSource → Option (Text × Text) → Io W (Text × LocalSource)
  unfolding returns throws local_display_path
  or_missing_file s none = throws (missing_file (local_display_path cwd s s.docker_context))
  or_missing_file s (some (content, path)) = returns (content, with_path_found path s)

  -- `read()`
  unfoldable pub read_local : LocalSource → Io W (Text × LocalSource)
  unfolding try_file try_with_extension or_missing_file ◌>>=◌
  read_local s = do
    tried ← try_with_extension try_file s.abs_path (some s.default_extension)
    or_missing_file s tried
