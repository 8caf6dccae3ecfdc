-- ===== src/Processors/Closed.antt =====
-- What holds of the loads of children and of the reads holds of the processors, if the ways to build actions
-- keep it.
use dockerfile_x.Common.{Bool, Option, none, some, List, Text, codes, ◌==◌}
use dockerfile_x.Exec.{Exec, call}
use dockerfile_x.Exec.Closed.{IsClosed, closed_if}
use dockerfile_x.Packages.{Packages, string, array, object}
use dockerfile_x.Instruction.{Instruction}
use dockerfile_x.Regex.{from_param_match}
use dockerfile_x.Source.{SourceApi}
use dockerfile_x.Processors.{
  Context, Processing, Processed, IncludeType, dockerfile, arg, env, label, child_context,
  include_stage, process_from, process_from_param, process_include, process, load_env_file,
  process_token, process_from_string, included_content,
}

module _ (api : SourceApi) (C : (A : Type 0) → Exec (SourceApi.World api) A → Type 0)
    (rules : IsClosed C)
    (reads : (s : SourceApi.Source api)
      → C (Text × SourceApi.Source api) (call (SourceApi.read api s)))
    (p : Packages) (load : SourceApi.Source api → Context → Exec (SourceApi.World api) Text)
    (c : Processing (SourceApi.Source api))
    (below : (s : SourceApi.Source api) (target : Option Text) (alias : Text) (root : Bool)
      → C Text (load s (child_context c target alias root))) where
  open rules use {closed_pure, closed_lift, closed_bind}

  include_stage_closed :
      (ref : Text) (target : Option Text) (including : Text)
      → C (Text × Text) (include_stage api p load c ref target including)
  unfolding include_stage
  include_stage_closed ref target including = search (closed_pure, closed_lift, closed_bind, below)

  process_from_string_closed :
      (args : Text) (i : Instruction) (lines : List Text)
      → C Processed (process_from_string api p load c args i lines)
  unfolding process_from_string
  process_from_string_closed args i lines =
      search (closed_if C, closed_pure, closed_lift, closed_bind, include_stage_closed)

  process_from_closed :
      (i : Instruction) (lines : List Text) → C Processed (process_from api p load c i lines)
  unfolding process_from
  process_from_closed i lines =
      elim i.args as (λ a. C Processed (process_from api p load c (record i { args = a }) lines)) [
        | string args ↦ process_from_string_closed args i lines
        | array _ ↦ search (closed_pure, closed_lift, closed_bind)
        | object ↦ search (closed_pure, closed_lift, closed_bind)
      ]

  process_from_param_closed :
      (i : Instruction) (lines : List Text) → C Processed (process_from_param api p load c i lines)
  unfolding process_from_param
  process_from_param_closed i lines =
      elim (from_param_match i.raw) as (λ m. C Processed (process_token api p load c m i lines)) [
        | none ↦ search (closed_pure)
        | some token ↦ search (closed_pure, closed_lift, closed_bind, include_stage_closed)
      ]

  load_env_file_closed :
      (s : SourceApi.Source api) (prefix : Text) → C Text (load_env_file api p s prefix)
  unfolding load_env_file
  load_env_file_closed s prefix = search (closed_pure, closed_bind, reads)

  included_content_closed :
      (kind : IncludeType) (s : SourceApi.Source api) (alias : Text)
      → C Text (included_content api p load c kind s alias)
  unfolding included_content
  included_content_closed dockerfile s alias = below s none alias (c.nesting_level == 0)
  included_content_closed arg s alias = load_env_file_closed s (codes "ARG ")
  included_content_closed env s alias = load_env_file_closed s (codes "ENV ")
  included_content_closed label s alias = load_env_file_closed s (codes "LABEL ")

  process_include_closed :
      (kind : IncludeType) (i : Instruction) (lines : List Text)
      → C Processed (process_include api p load c kind i lines)
  unfolding process_include
  process_include_closed kind i lines =
      search (closed_pure, closed_lift, closed_bind, included_content_closed)

  pub process_closed :
      (i : Instruction) (lines : List Text) → C Processed (process api p load c i lines)
  unfolding process
  process_closed i lines = closed_if C _ _ _ (process_from_closed i lines) (
      closed_if C _ _ _ (process_from_param_closed i lines) (
        closed_if C _ _ _ (process_include_closed dockerfile i lines) (
          closed_if C _ _ _ (process_include_closed arg i lines) (
            closed_if C _ _ _ (process_include_closed env i lines)
              (closed_if C _ _ _ (process_include_closed label i lines) (closed_pure _ _))))))
