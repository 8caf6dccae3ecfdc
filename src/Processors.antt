-- ===== src/Processors.antt =====
-- src/instruction: the processors of the instructions, for the files that they include.
pub mod Closed
pub mod Reading
use dockerfile_x.Common.{
  ℕ, zero, suc, ◌+◌, Bool, true, false, not, ◌&&◌, ◌||◌, Option, none, some, is_some, List, [], ◌∷◌,
  ◌++◌, map, Text, codes, ◌==◌, ltb, if◌then◌else◌, includes, same, starts_with, trim, join,
  newline,
}
use dockerfile_x.Common.Split.{split_at}
use dockerfile_x.Errors.{Result, ok, err, type_error, include_cycle_error, include_depth_exceeded}
use dockerfile_x.Exec.{Exec, pure, throw, cut_short, lift, call, ◌>>=◌}
use dockerfile_x.Packages.{Packages, Args, string, array, object}
use dockerfile_x.Instruction.{Instruction, with_args}
use dockerfile_x.Names.{generate_file_path_slug}
use dockerfile_x.Regex.{as_match, include_from, split_spaced_as, from_param_match}
use dockerfile_x.Parse.{parse_dockerfile_with}
use dockerfile_x.Included.{generate_included}
use dockerfile_x.EnvFile.{load_env_content}
use dockerfile_x.PostProcess.{post_process_dockerfile}
use dockerfile_x.RedeclareArgs.{redeclare_arg_top}
use dockerfile_x.Source.{SourceApi, resolve_source}
use dockerfile_x.Source.Scheme.{detect_scheme, local}

-- The `fileContext` of `loadDockerfile`, its defaults put in.
pub record Context : Type 0 where
  pub parent_stage_target : Option Text
  pub parent_stage_alias : Option Text
  pub nesting_level : ℕ
  pub docker_context : Text
  pub scope : List Text
  pub include_chain : List Text
  pub max_include_depth : ℕ
  pub is_root_include : Bool

-- What `detectScheme(…) !== SCHEMES.LOCAL` says.
unfoldable pub is_remote : Text → Bool
unfolding detect_scheme
is_remote ref = elim (detect_scheme ref) [ local ↦ false | _ ↦ true ]

-- `s.split("#")`, its first two parts
abbrev target_parts : List Text → Text × Option Text
target_parts [] = ([], none)
target_parts (ref ∷ []) = (ref, none)
target_parts (ref ∷ target ∷ _) = (ref, some target)

-- `includeRef` and `targetStage`
unfoldable pub split_target : Text → Text × Option Text
unfolding is_remote split_at
split_target token = if is_remote token then (token, none) else target_parts (split_at b'#' token)

-- The `processingContext` of the processors of one file: `scope` and `include_chain` hold the file.
pub record Processing (Source : Type 0) : Type 0 where
  pub nesting_level : ℕ
  pub docker_context : Text
  pub parent_source : Source
  pub relative_file_path : Text
  pub scope : List Text
  pub include_chain : List Text
  pub max_include_depth : ℕ

-- What a processor leaves: the array `lines`, which it may have changed, and the lines it returned.
abbrev pub Processed : Type 0
Processed = List Text × Option (List Text)

-- The context in which a processor loads a child.
abbrev pub child_context : {S : Type 0} → Processing S → Option Text → Text → Bool → Context
child_context c target alias is_root_include = record {
  parent_stage_target = target;
  parent_stage_alias = some alias;
  nesting_level = c.nesting_level + 1;
  docker_context = c.docker_context;
  scope = c.scope;
  include_chain = c.include_chain;
  max_include_depth = c.max_include_depth;
  is_root_include = is_root_include;
}

abbrev pub dockerfile_extension : Option Text
dockerfile_extension = some (codes ".dockerfile")

abbrev pub head_or_empty : List Text → Text
head_or_empty [] = []
head_or_empty (s ∷ l) = s

abbrev or_final_stage : Option Text → Text
or_final_stage none = codes "final-stage"
or_final_stage (some name) = name

abbrev rename_from : Text → Text → Text
unfolding starts_with
rename_from alias arg = if starts_with (codes "--from=") arg then codes "--from=" ++ alias else arg

-- The second argument of the factory in src/instruction/include.js.
pub data IncludeType : Type 0 where
  dockerfile arg env label : IncludeType

module _ (api : SourceApi) (p : Packages) where
  open api use {World, Source, resolve, read, key, display_path, stage_alias_base, fs_path}

  -- `loadEnvFileAndPrefix`
  unfoldable pub load_env_file : Source → Text → Exec World Text
  unfolding load_env_content
  load_env_file child prefix = do
    (content, _) ← call (read child)
    pure (load_env_content p content prefix)

  -- The processors take the loader as a parameter: the modules of the program import one another.
  module _ (load : Source → Context → Exec World Text) (c : Processing Source) where
    -- What the processors of FROM and of `--from` do for an include: the slug of the child, and its
    -- text between comments.
    unfoldable pub include_stage : Text → Option Text → Text → Exec World (Text × Text)
    unfolding resolve_source generate_file_path_slug generate_included
    include_stage ref target including = do
      child ←
          lift (resolve_source api ref (some c.parent_source) c.docker_context dockerfile_extension)
      let alias = generate_file_path_slug p (stage_alias_base child c.docker_context)
      content ← load child (child_context c target alias false)
      pure (alias, generate_included ref c.relative_file_path content including)

    -- src/instruction/from.js
    abbrev process_from_string : Text → Instruction → List Text → Exec World Processed
    unfolding is_remote include_from split_target include_stage as_match split_spaced_as trim
    process_from_string args i lines =
        let token = trim (head_or_empty (split_spaced_as args)) in
        if is_remote token || include_from token
        then (do
          let (ref, target) = split_target token
          (alias, included) ← include_stage ref target (codes "from")
          let name = or_final_stage (as_match args)
          pure (lines, some (included ∷ (codes "FROM " ++ (alias ++ (codes " AS " ++ name))) ∷ [])))
        else pure (lines, some (i.raw ∷ []))

    unfoldable pub process_from : Instruction → List Text → Exec World Processed
    unfolding process_from_string
    process_from i lines = elim i.args [
      | string args ↦ process_from_string args i lines
      | array _ ↦ lift (err type_error)
      | object ↦ lift (err type_error)
    ]

    -- The rewritten COPY or ADD.
    unfoldable pub rename_args : Text → Instruction → Result Instruction
    unfolding with_args rename_from
    rename_args alias i = elim i.args [
      | array args ↦ with_args p i (array (map (rename_from alias) args))
      | string _ ↦ err type_error
      | object ↦ err type_error
    ]

    abbrev process_token : Option Text → Instruction → List Text → Exec World Processed
    unfolding split_target include_stage rename_args
    process_token none i lines = pure (lines ++ i.raw ∷ [], none)
    process_token (some token) i lines = do
      let (ref, target) = split_target token
      (alias, included) ← include_stage ref target (codes "fromParam")
      j ← lift (rename_args alias i)
      pure (included ∷ (lines ++ j.raw ∷ []), none)

    -- src/instruction/fromParam.js: it changes `lines`, and returns nothing.
    unfoldable pub process_from_param : Instruction → List Text → Exec World Processed
    unfolding from_param_match process_token
    process_from_param i lines = process_token (from_param_match i.raw) i lines

    abbrev include_argument : Args → Result Text
    include_argument (string s) = ok s
    include_argument (array []) = err type_error
    include_argument (array (s ∷ l)) = ok s
    include_argument object = err type_error

    abbrev extension_of : IncludeType → Option Text
    extension_of dockerfile = dockerfile_extension
    extension_of _ = some (codes ".env")

    abbrev included_content : IncludeType → Source → Text → Exec World Text
    unfolding load_env_file
    included_content dockerfile child alias =
        load child (child_context c none alias (c.nesting_level == 0))
    included_content arg child alias = load_env_file child (codes "ARG ")
    included_content env child alias = load_env_file child (codes "ENV ")
    included_content label child alias = load_env_file child (codes "LABEL ")

    -- src/instruction/include.js
    unfoldable pub process_include : IncludeType → Instruction → List Text → Exec World Processed
    unfolding included_content resolve_source generate_file_path_slug generate_included
    process_include kind i lines = do
      ref ← lift (include_argument i.args)
      child ←
          lift (resolve_source api ref (some c.parent_source) c.docker_context (extension_of kind))
      let alias = generate_file_path_slug p (stage_alias_base child c.docker_context)
      content ← included_content kind child alias
      pure (lines, some (generate_included ref c.relative_file_path content (codes "include") ∷ []))

    -- src/instruction/_default.js
    abbrev process_default : Instruction → List Text → Exec World Processed
    process_default i lines = pure (lines, some (i.raw ∷ []))

    -- src/instruction/index.js
    unfoldable pub process : Instruction → List Text → Exec World Processed
    unfolding process_from process_from_param process_include same
    process i lines =
        if same i.name (codes "FROM")
        then process_from i lines
        else if same i.name (codes "COPY") || same i.name (codes "ADD")
        then process_from_param i lines
        else if same i.name (codes "INCLUDE")
        then process_include dockerfile i lines
        else if same i.name (codes "INCLUDE_ARGS")
        then process_include arg i lines
        else if same i.name (codes "INCLUDE_ENVS")
        then process_include env i lines
        else if same i.name (codes "INCLUDE_LABELS")
        then process_include label i lines
        else process_default i lines
