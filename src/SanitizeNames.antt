-- ===== src/SanitizeNames.antt =====
-- src/lib/sanitizeStageNames.js: the aliases of the stages are sanitized, and with them the references
-- to stages that stand above.
pub mod References
pub mod Linked
use dockerfile_x.Common.{
  ◌||◌, Option, none, some, List, [], ◌∷◌, ◌++◌, map, Text, codes, newline, if◌then◌else◌,
  get_elem?, same, starts_with,
}
use dockerfile_x.Common.Split.{split_at}
use dockerfile_x.Errors.{Result, ok, err, type_error, ◌>>=◌}
use dockerfile_x.Packages.{Packages, Args, string, array, object}
use dockerfile_x.Instruction.{Instruction, with_args}
use dockerfile_x.Regex.{split_as}
use dockerfile_x.Names.{sanitize_stage_name}
use dockerfile_x.Parse.{parse_dockerfile}

-- The `Map` from aliases to sanitized aliases, with the last entry in front.
abbrev pub AliasMap : Type 0
AliasMap = List (Text × Text)

unfoldable pub get : Text → AliasMap → Option Text
unfolding same
get k [] = none
get k ((j, v) ∷ m) = if same j k then some v else get k m

-- `map.has(k) ? map.get(k) : k`
unfoldable pub renamed : AliasMap → Text → Text
unfolding get
renamed aliases k = elim (get k aliases) [ none ↦ k | some v ↦ v ]

-- One argument of COPY or ADD. The text behind the first `=` and before the second is looked up.
unfoldable pub sanitize_arg : AliasMap → Text → Text
unfolding starts_with split_at get
sanitize_arg aliases arg =
    if starts_with (codes "--from=") arg
    then elim (get_elem? (split_at b'=' arg) 1) [
      | none ↦ arg
      | some value ↦ elim (get value aliases) [ none ↦ arg | some v ↦ codes "--from=" ++ v ]
    ]
    else arg

-- The line of a FROM. Where the arguments hold no ` AS `, or more than one, what follows the first part
-- is dropped.
module _ (p : Packages) where
  unfoldable pub sanitize_from : AliasMap → List Text → Text × AliasMap
  unfolding renamed sanitize_stage_name
  sanitize_from aliases (image ∷ alias ∷ []) =
      let sanitized = sanitize_stage_name p alias in
      (
        codes "FROM " ++ (renamed aliases image ++ (codes " AS " ++ sanitized)),
        (alias, sanitized) ∷ aliases,
      )
  sanitize_from aliases (image ∷ parts) = (codes "FROM " ++ renamed aliases image, aliases)
  sanitize_from aliases [] = (codes "FROM undefined", aliases)

  unfoldable pub sanitize_from_args : AliasMap → Args → Result (Text × AliasMap)
  unfolding split_as sanitize_from
  sanitize_from_args aliases (string args) = ok (sanitize_from aliases (split_as args))
  sanitize_from_args aliases (array _) = err type_error
  sanitize_from_args aliases object = err type_error

  -- `instruction.raw`, generated again.
  unfoldable pub raw_with : AliasMap → Instruction → Args → Result (Text × AliasMap)
  unfolding with_args
  raw_with aliases i args = do j ← with_args p i args; ok (j.raw, aliases)

  -- The loop over `args` reads `args.length`, which is undefined at an object; a unit of a string does
  -- not start with `--from=`.
  unfoldable pub sanitize_copy_args : AliasMap → Instruction → Args → Result (Text × AliasMap)
  unfolding sanitize_arg raw_with
  sanitize_copy_args aliases i (string args) = raw_with aliases i (string args)
  sanitize_copy_args aliases i (array args) =
      raw_with aliases i (array (map (sanitize_arg aliases) args))
  sanitize_copy_args aliases i object = raw_with aliases i object

  -- One round of the loop: the text that is appended, before its newline, and the new map.
  unfoldable pub sanitize_instruction : AliasMap → Instruction → Result (Text × AliasMap)
  unfolding same sanitize_from_args sanitize_copy_args
  sanitize_instruction aliases i =
      if same i.name (codes "FROM")
      then sanitize_from_args aliases i.args
      else if same i.name (codes "COPY") || same i.name (codes "ADD")
      then sanitize_copy_args aliases i i.args
      else ok (i.raw, aliases)

  unfoldable pub sanitize_all : AliasMap → List Instruction → Result Text
  unfolding sanitize_instruction
  sanitize_all aliases [] = ok []
  sanitize_all aliases (i ∷ is) = do
    (line, aliases') ← sanitize_instruction aliases i
    rest ← sanitize_all aliases' is
    ok (line ++ (newline ++ rest))

  unfoldable pub sanitize_stage_names : Text → Result Text
  unfolding parse_dockerfile sanitize_all
  sanitize_stage_names content = do
    instructions ← parse_dockerfile p content
    sanitize_all [] instructions
