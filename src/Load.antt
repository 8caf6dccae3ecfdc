-- ===== src/Load.antt =====
-- src/core/loadDockerfile.js and rootLoadDockerfile.js: the recursion over included files.
mod Closed
pub mod Preserving
mod Allowing
pub mod Reading
pub mod Guard
pub mod Totality
use dockerfile_x.Common.{
  ℕ, zero, suc, ◌+◌, Bool, true, false, not, Option, none, some, List, [], ◌∷◌, ◌++◌, Text, codes,
  ◌==◌, ltb, if◌then◌else◌, includes, join, newline,
}
use dockerfile_x.Errors.{Result, include_cycle_error, include_depth_exceeded}
use dockerfile_x.Exec.{Exec, pure, throw, cut_short, lift, call, ◌>>=◌}
use dockerfile_x.Packages.{Packages}
use dockerfile_x.Instruction.{Instruction}
use dockerfile_x.Parse.{parse_dockerfile_with}
use dockerfile_x.PostProcess.{truthy, post_process_dockerfile}
use dockerfile_x.RedeclareArgs.{redeclare_arg_top}
use dockerfile_x.Source.{SourceApi, resolve_source}
use dockerfile_x.Source.Scheme.{detect_scheme, local}
use dockerfile_x.Processors.{Context, Processing, Processed, process, is_remote}

-- `if (instructionLines) lines.push(...instructionLines)`
abbrev pub append_returned : Processed → List Text
append_returned (lines, none) = lines
append_returned (lines, some returned) = lines ++ returned

module _ (api : SourceApi) (p : Packages) where
  open api use {World, Source, resolve, read, key, display_path, fs_path}

  -- The loop over the instructions of one file.
  unfoldable pub process_all :
      (Source → Context → Exec World Text)
      → Processing Source
      → List Instruction
      → List Text
      → Exec World (List Text)
  unfolding process
  process_all load c [] lines = pure lines
  process_all load c (i ∷ is) lines = do
    processed ← process api p load c i lines
    process_all load c is (append_returned processed)

  -- `processingContext`, for the key of the source before it was read and the source behind it.
  abbrev pub processing : Context → Text → Source → Processing Source
  processing c source_key source = record {
    nesting_level = c.nesting_level;
    docker_context = c.docker_context;
    parent_source = source;
    relative_file_path = display_path source c.docker_context;
    scope = c.scope ++ display_path source c.docker_context ∷ [];
    include_chain = c.include_chain ++ source_key ∷ [];
    max_include_depth = c.max_include_depth;
  }

  -- From the content of the file on.
  unfoldable pub compile :
      (Source → Context → Exec World Text) → Context → Processing Source → Text → Exec World Text
  unfolding process_all parse_dockerfile_with join post_process_dockerfile
  compile load c pc content = do
    let is_root_file = c.nesting_level == 0
    instructions ← lift (parse_dockerfile_with p (not is_root_file) content)
    lines ← process_all load pc instructions []
    lift (
        post_process_dockerfile p (join newline lines) (record {
          stage_target = c.parent_stage_target;
          stage_alias = c.parent_stage_alias;
          file_path = fs_path pc.parent_source;
          is_root_file = is_root_file;
          is_root_include = c.is_root_include;
          relative_file_path = pc.relative_file_path;
          scope = pc.scope;
        }))

  -- `source.read()` behind the two guards, and all that follows.
  unfoldable pub read_and_compile :
      (Source → Context → Exec World Text) → Context → Source → Exec World Text
  unfolding compile
  read_and_compile load c source = do
    (content, source') ← call (read source)
    compile load c (processing c (key source) source') content

  -- The body of `loadDockerfile`, which calls itself through the processors.
  unfoldable pub load_body :
      (Source → Context → Exec World Text) → Source → Context → Exec World Text
  unfolding read_and_compile includes include_cycle_error
  load_body load source c =
      if ltb c.max_include_depth c.nesting_level
      then throw (include_depth_exceeded c.nesting_level c.max_include_depth c.include_chain)
      else (do
        source' ← call (resolve source)
        if includes (key source') c.include_chain
            then throw (include_cycle_error (key source') c.include_chain)
            else read_and_compile load c source')

  -- Each level of nesting takes one unit of fuel.
  unfoldable pub load_dockerfile : ℕ → Source → Context → Exec World Text
  unfolding load_body
  load_dockerfile zero source c = cut_short
  load_dockerfile (suc fuel) source c = load_body (load_dockerfile fuel) source c

  -- `new LocalSource(…)` of a root that is local, or the source of a remote reference.
  unfoldable pub root_source : Text → Text → Result Source
  unfolding is_remote resolve_source
  root_source file_path docker_context =
      if is_remote file_path
      then resolve_source api file_path none docker_context none
      else api.new_local file_path docker_context none (truthy (some docker_context))

  -- The context of the root: the defaults of `loadDockerfile`.
  abbrev pub root_context : Text → ℕ → Context
  root_context docker_context max_include_depth = record {
    parent_stage_target = none;
    parent_stage_alias = none;
    nesting_level = 0;
    docker_context = docker_context;
    scope = [];
    include_chain = [];
    max_include_depth = max_include_depth;
    is_root_include = false;
  }

  -- `rootLoadDockerfile` at the path of a file. A root of depth 0 and `max_include_depth` levels below
  -- it need a unit of fuel each, and one more for the level that the guard refuses.
  unfoldable pub root_load_dockerfile : Text → Text → ℕ → Exec World Text
  unfolding root_source load_dockerfile redeclare_arg_top
  root_load_dockerfile file_path docker_context max_include_depth = do
    source ← lift (root_source file_path docker_context)
    result ←
        load_dockerfile (max_include_depth + 2) source
          (root_context docker_context max_include_depth)
    lift (redeclare_arg_top p result)
