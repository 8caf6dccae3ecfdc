-- ===== src/Tests/Texts.antt =====
-- The passes that read back what they wrote, at concrete arguments.
use dockerfile_x.Common.{
  All, Bool, ℕ, ◌≡◌, refl, true, false, none, some, List, [], ◌∷◌, ◌++◌, Text, codes, any, join,
  newline, same, is_space,
}
use dockerfile_x.Errors.{ok}
use dockerfile_x.Packages.{string, array}
use dockerfile_x.Instruction.{Instruction}
use dockerfile_x.Regex.{split_as}
use dockerfile_x.Parse.{parse_dockerfile}
use dockerfile_x.EnvFile.{clean_value}
use dockerfile_x.EnvFile.Quoting.{plain, read_quoted}
use dockerfile_x.Included.{attributes, start_prefix, field, parse_start_comment}
use dockerfile_x.Included.RoundTrip.{parse_start_comment-include_type}
use dockerfile_x.ScopeStages.{identify_all, scope_stages}
use dockerfile_x.ScopeStages.ExecForm.{IsRun, HasText, scope_stages-HasText}
use dockerfile_x.SanitizeNames.{sanitize_stage_names}
use dockerfile_x.SanitizeNames.Linked.{Names, copied, AreLinked, sanitize_stage_names-AreLinked}
use dockerfile_x.PostProcess.{
  Options, truthy, count_from, emit_all, local_stage_target, post_process_dockerfile, scoped,
}
use dockerfile_x.PostProcess.Alias.{raw_lines, line_for, emit_all-final_alias}
use dockerfile_x.PostProcess.Target.{is_target, post_process_dockerfile-has_target}
use dockerfile_x.Tests.World.{packages, parse, digest}

-- A value with a quote, a dollar sign, a backslash and both kinds of newline.
abbrev value : Text
value = codes "a\"$b\\" ++ 13 ∷ 10 ∷ 10 ∷ []

backtick_kept : read_quoted plain (clean_value (codes "a`b")) ≡ some (codes "a\\`b")
unfolding read_quoted clean_value
backtick_kept = refl

parse_start_comment-include_type_example :
    (m : List (Text × Text)) × (parse_start_comment
        (start_prefix ++ attributes (codes "a b=c") (codes "d ") (codes "fromParam"))
      ≡ some m)
    × (field (codes "includeType") m ≡ some (codes "fromParam"))
parse_start_comment-include_type_example =
    parse_start_comment-include_type (codes "a b=c") (codes "d ") (codes "fromParam")
      (unfold is_space in refl) refl

abbrev instruction : Text → Text → ℕ → Instruction
instruction name args lineno = record {
  name = name;
  args = string args;
  lineno = lineno;
  raw = name ++ codes " " ++ args;
}

abbrev from_debian : Instruction
from_debian = instruction (codes "FROM") (codes "debian AS base") 1

abbrev from_base : Instruction
from_base = instruction (codes "FROM") (codes "base") 2

abbrev run_apt : Instruction
run_apt = instruction (codes "RUN") (codes "apt") 3

abbrev scoped_stages : List Instruction
scoped_stages =
    instruction (codes "FROM") (codes "debian AS appaaaaaa--base") 1
    ∷ instruction (codes "FROM") (codes "appaaaaaa--base AS appaaaaaa--final-stage") 2
    ∷ run_apt
    ∷ []

scoped_file :
    scope_stages packages (from_debian ∷ from_base ∷ run_apt ∷ []) (codes "app") ≡ ok scoped_stages
unfolding scope_stages digest
scoped_file = refl

abbrev named_stages : List Instruction
named_stages =
    from_debian ∷ instruction (codes "FROM") (codes "base AS final-stage") 2 ∷ run_apt ∷ []

identified :
    identify_all packages (from_debian ∷ from_base ∷ run_apt ∷ [])
    ≡ ok (codes "base" ∷ codes "final-stage" ∷ [], named_stages)
unfolding identify_all
identified = refl

scope_stages-HasText_example : All (λ i. IsRun i → HasText i.args) named_stages
scope_stages-HasText_example =
    scope_stages-HasText packages (from_debian ∷ from_base ∷ run_apt ∷ []) named_stages
      scoped_stages (codes "base") (codes "final-stage" ∷ []) (codes "app") identified scoped_file

emit_all-final_alias_example :
    ((emit_all
        (some (codes "x"))
        none
        false
        (count_from (from_debian ∷ from_base ∷ run_apt ∷ []))
        (from_debian ∷ from_base ∷ run_apt ∷ [])
        0).0
      ≡ raw_lines (from_debian ∷ [])
        ++ (from_base.raw
            ++ (newline ++ line_for (codes "x") from_base)
            ++ raw_lines (run_apt ∷ [])))
    × ((emit_all
          (some (codes "x"))
          none
          true
          (count_from (from_debian ∷ from_base ∷ run_apt ∷ []))
          (from_debian ∷ from_base ∷ run_apt ∷ [])
          0).0
        ≡ raw_lines (from_debian ∷ from_base ∷ run_apt ∷ []))
    × ((b : Bool)
        → (emit_all none none b
            (count_from (from_debian ∷ from_base ∷ run_apt ∷ []))
            (from_debian ∷ from_base ∷ run_apt ∷ [])
            0).0
          ≡ raw_lines (from_debian ∷ from_base ∷ run_apt ∷ []))
emit_all-final_alias_example =
    emit_all-final_alias (codes "x") (from_debian ∷ []) from_base (run_apt ∷ [])
      (unfold same in refl) (unfold count_from in refl)

-- A COPY from a stage with another stage in between.
abbrev two_parts : Text
two_parts = codes "FROM debian AS My.Stage\nFROM node AS b\nCOPY --from=My.Stage a b\nRUN x"

abbrev declaring : Instruction
declaring = instruction (codes "FROM") (codes "debian AS My.Stage") 1

abbrev copy_from : Instruction
copy_from = record {
  name = codes "COPY";
  args = array (codes "--from=My.Stage" ∷ codes "a" ∷ codes "b" ∷ []);
  lineno = 3;
  raw = codes "COPY --from=My.Stage a b";
}

abbrev sanitized : Text
sanitized = codes "FROM debian AS my_stage\nFROM node AS b\nCOPY --from=my_stage a b\nRUN x\n"

parts_parsed :
    parse_dockerfile packages two_parts
    ≡ ok (
        []
        ++ declaring
          ∷ (instruction (codes "FROM") (codes "node AS b") 2 ∷ []
              ++ copy_from ∷ instruction (codes "RUN") (codes "x") 4 ∷ []))
unfolding parse_dockerfile parse
parts_parsed = refl

parts_sanitized : sanitize_stage_names packages two_parts ≡ ok sanitized
unfolding sanitize_stage_names parse digest
parts_sanitized = refl

abbrev reference : Names (codes "My.Stage") copy_from
reference = copied [] (codes "a" ∷ codes "b" ∷ []) (unfold same in refl) (unfold same in refl) refl

sanitize_stage_names-AreLinked_example :
    AreLinked packages (codes "My.Stage") copy_from reference sanitized
sanitize_stage_names-AreLinked_example =
    sanitize_stage_names-AreLinked packages two_parts sanitized [] declaring
      (instruction (codes "FROM") (codes "node AS b") 2 ∷ []) copy_from
      (instruction (codes "RUN") (codes "x") 4 ∷ []) (codes "debian AS My.Stage") (codes "debian")
      (codes "My.Stage") parts_parsed (unfold same in refl) refl (unfold split_as in refl) refl
      reference parts_sanitized

-- An included file that declares the same ARG two times.
abbrev content : Text
content = join newline (
    codes "FROM x"
    ∷ codes "# DOCKERFILE-X:START file=\"a\" includedBy=\"b\" includeType=\"from\""
    ∷ codes "ARG v"
    ∷ codes "ARG v"
    ∷ [])

-- A file that is included for its stage `base`.
abbrev options : Options
options = record {
  stage_target = some (codes "base");
  stage_alias = some (codes "x");
  file_path = none;
  is_root_file = false;
  is_root_include = false;
  relative_file_path = codes "app";
  scope = codes "app" ∷ [];
}

abbrev compiled : Text
compiled = join newline (
    codes "FROM debian AS appaaaaaa--base"
    ∷ codes "FROM appaaaaaa--base AS x"
    ∷ codes "RUN apt"
    ∷ [])

post_processed :
    post_process_dockerfile packages (codes "FROM debian AS base\nRUN apt") options ≡ ok compiled
unfolding post_process_dockerfile parse digest join
post_processed = refl

post_process_dockerfile-has_target_example :
    (parsed : List Instruction) × (is : List Instruction) × (parse_dockerfile packages
        (codes "FROM debian AS base\nRUN apt")
      ≡ ok parsed)
    × (scoped packages options parsed ≡ ok is)
    × (any (is_target (local_stage_target packages options.scope (some (codes "base")))) is ≡ true)
post_process_dockerfile-has_target_example =
    post_process_dockerfile-has_target packages (codes "FROM debian AS base\nRUN apt") options
      (codes "base") compiled (unfold truthy in refl) post_processed
