-- ===== src/PostProcess.antt =====
-- src/core/postProcessDockerfile.js: the passes over the text of one file, and the alias by which the
-- including file knows its target stage.
pub mod Alias
pub mod Target
use dockerfile_x.Common.{
  ℕ, suc, Bool, true, false, not, ◌&&◌, ◌||◌, Option, none, some, List, [], ◌∷◌, ◌++◌, Text, codes,
  ◌==◌, if◌then◌else◌, last_or, newline, same,
}
use dockerfile_x.Errors.{Result, ok, err, plain, ◌>>=◌, ◌>>◌}
use dockerfile_x.Packages.{Packages}
use dockerfile_x.Names.{generate_file_path_slug}
use dockerfile_x.Regex.{as_match}
use dockerfile_x.Instruction.{Instruction, is_from}
use dockerfile_x.Parse.{parse_dockerfile}
use dockerfile_x.ScopeStages.{scope_stages}
use dockerfile_x.Deduplicate.{deduplicate_stages}
use dockerfile_x.SanitizeNames.{sanitize_stage_names}

-- The second argument of `postProcessDockerfile`, with `none` for null and undefined. `scope` is never
-- empty there: the file itself is its last entry.
pub record Options : Type 0 where
  pub stage_target : Option Text
  pub stage_alias : Option Text
  pub file_path : Option Text
  pub is_root_file : Bool
  pub is_root_include : Bool
  pub relative_file_path : Text
  pub scope : List Text

-- An empty string is falsy.
unfoldable pub truthy : Option Text → Option Text
truthy none = none
truthy (some []) = none
truthy (some (c ∷ s)) = some (c ∷ s)

unfoldable pub count_from : List Instruction → ℕ
unfolding same
count_from [] = 0
count_from (i ∷ is) = if is_from i then suc (count_from is) else count_from is

-- `localStageTarget && localStageTarget === stageName`
unfoldable pub matches_target : Option Text → Option Text → Bool
unfolding same
matches_target none name = false
matches_target (some target) none = false
matches_target (some target) (some name) = same target name

-- `${stageName}` in a template
abbrev pub or_undefined : Option Text → Text
or_undefined none = codes "undefined"
or_undefined (some name) = name

abbrev pub is_none : Option Text → Bool
is_none none = true
is_none (some _) = false

-- The line that gives a stage its alias, if there is an alias to give and this is the stage.
unfoldable pub alias_line : Option Text → Option Text → Bool → Text
alias_line none name wanted = []
alias_line (some stage_alias) name wanted =
    if wanted
    then codes "FROM " ++ (or_undefined name ++ (codes " AS " ++ (stage_alias ++ newline)))
    else []

module _ (stage_alias local_target : Option Text) (is_root_include : Bool) (from_count : ℕ) where
  -- What the loop appends for an instruction. `current` counts the FROMs up to this one.
  unfoldable pub emit : Instruction → ℕ → Text
  unfolding same as_match matches_target alias_line
  emit i current =
      i.raw
      ++ (newline
          ++ (if is_from i
              then alias_line stage_alias (as_match i.raw) (
                  matches_target local_target (as_match i.raw)
                  || (not is_root_include && is_none local_target && current == from_count))
              else []))

  -- The loop: the text, and `stageTargetFound`.
  unfoldable pub emit_all : List Instruction → ℕ → Text × Bool
  unfolding emit
  emit_all [] current = ([], false)
  emit_all (i ∷ is) current =
      let now = if is_from i then suc current else current in
      let (rest, found) = emit_all is now in
      (emit i now ++ rest, is_from i && matches_target local_target (as_match i.raw) || found)

module _ (p : Packages) where
  -- `[generateFilePathSlug(scope[scope.length - 1]), stageTarget].join("--")`
  unfoldable pub local_stage_target : List Text → Option Text → Option Text
  unfolding generate_file_path_slug
  local_stage_target scope none = none
  local_stage_target scope (some target) =
      some (generate_file_path_slug p (last_or [] scope) ++ (codes "--" ++ target))

  -- `filePath || relativeFilePath`
  abbrev pub file_name : Options → Text
  unfolding truthy
  file_name o = elim (truthy o.file_path) [ none ↦ o.relative_file_path | some path ↦ path ]

  abbrev pub require_target : Options → Bool → Option Text → Result (Unit {0})
  require_target o found none = ok tt
  require_target o true (some target) = ok tt
  require_target o false (some target) = err (
      plain (
        codes "Specified stage target \""
        ++ (target ++ (codes "\" not found in \"" ++ (file_name o ++ codes "\"")))))

  -- `if (stageTarget && !stageTargetFound) throw …`
  abbrev pub check_target : Options → Bool → Result (Unit {0})
  unfolding truthy
  check_target o found = require_target o found (truthy o.stage_target)

  -- The instructions after scoping, which an included file gets unless it is pasted at the root.
  unfoldable pub scoped : Options → List Instruction → Result (List Instruction)
  unfolding scope_stages
  scoped o instructions =
      if o.is_root_file || o.is_root_include
      then ok instructions
      else scope_stages p instructions o.relative_file_path

  unfoldable pub sanitize_at_root : Options → Text → Result Text
  unfolding sanitize_stage_names
  sanitize_at_root o result =
      if o.is_root_file || o.is_root_include then sanitize_stage_names p result else ok result

  unfoldable pub post_process_dockerfile : Text → Options → Result Text
  unfolding parse_dockerfile scoped count_from emit_all local_stage_target truthy deduplicate_stages
      sanitize_at_root
  post_process_dockerfile content o = do
    parsed ← parse_dockerfile p content
    instructions ← scoped o parsed
    let target = local_stage_target o.scope (truthy o.stage_target)
    let emitted =
        emit_all (truthy o.stage_alias) target o.is_root_include (count_from instructions)
          instructions 0
    check_target o emitted.1
    deduplicated ← deduplicate_stages p emitted.0
    sanitize_at_root o deduplicated
