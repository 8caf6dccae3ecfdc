-- ===== src/Processors/Reading.antt =====
-- Which reads the processors make: with another way to read, which does the same where the sources are
-- of a kind that includes do not leave, they do the same.
use dockerfile_x.Common.{◌≡◌, Bool, Option, none, some, List, Text, codes, ◌==◌}
use dockerfile_x.Errors.{Result, ok}
use dockerfile_x.Exec.{Exec}
use dockerfile_x.Exec.Agrees.{
  Agrees, Any, Agrees-if, Agrees-pure-Any, Agrees-lift, Agrees-lift-Any, Agrees-call, Agrees-bind,
  Agrees-bind-Any, agree_rules,
}
use dockerfile_x.Packages.{Packages, string, array, object}
use dockerfile_x.Instruction.{Instruction}
use dockerfile_x.Regex.{from_param_match}
use dockerfile_x.Source.{SourceApi, resolve_source}
use dockerfile_x.Processors.{
  Context, Processing, IncludeType, dockerfile, arg, env, label, child_context, include_stage,
  process_from, process_from_param, process_include, process, load_env_file, process_token,
  process_from_string, included_content, dockerfile_extension,
}

module _ (api : SourceApi) where
  open api use {World, Source, resolve, read}

  abbrev pub Reader : Type 0
  Reader = Source → World → Result (Text × Source) × World

  -- The sources with another `read`.
  abbrev pub reading : Reader → SourceApi
  reading read' = record api { read = read' }

  -- What includes of a source of the kind `P`, its `resolve` and its `read` lead to is of the kind again,
  -- and there the two ways to read do the same.
  pub record IsConfined (read' : Reader) (P : Source → Type 0) : Type 0 where
    pub included :
        (reference : Text) (parent child : Source) (context : Text) (extension : Option Text)
        → P parent
        → resolve_source api reference (some parent) context extension ≡ ok child
        → P child
    pub resolved : (s s' : Source) (w : World) → P s → (resolve s w).0 ≡ ok s' → P s'
    pub been_read : (s : Source) (r : Text × Source) (w : World) → P s → (read s w).0 ≡ ok r → P r.1
    pub alike : (s : Source) (w : World) → P s → read s w ≡ read' s w

module _ (api : SourceApi) (read' : Reader api) (P : SourceApi.Source api → Type 0)
    (confined : IsConfined api read' P) (p : Packages)
    (load load' : SourceApi.Source api → Context → Exec (SourceApi.World api) Text)
    (c : Processing (SourceApi.Source api)) (inside : P c.parent_source)
    (below : (s : SourceApi.Source api) (target : Option Text) (alias : Text) (root : Bool)
      → P s
      → Agrees Any
          (load s (child_context c target alias root))
          (load' s (child_context c target alias root))) where
  abbrev api' : SourceApi
  api' = reading api read'

  include_stage-Agrees :
      (ref : Text) (target : Option Text) (including : Text)
      → Agrees Any
          (include_stage api p load c ref target including)
          (include_stage api' p load' c ref target including)
  unfolding include_stage resolve_source
  include_stage-Agrees ref target including =
      Agrees-bind {P = P} _ _ _ _
        (Agrees-lift _ (λ child e.
          confined.included ref c.parent_source child c.docker_context dockerfile_extension inside
            e))
        (λ child h. Agrees-bind-Any _ _ _ _ (below child target _ _ h) (λ _. Agrees-pure-Any _))

  process_from_string-Agrees :
      (args : Text) (i : Instruction) (lines : List Text)
      → Agrees Any
          (process_from_string api p load c args i lines)
          (process_from_string api' p load' c args i lines)
  unfolding process_from_string
  process_from_string-Agrees args i lines = search (agree_rules, include_stage-Agrees)

  process_from-Agrees :
      (i : Instruction) (lines : List Text)
      → Agrees Any (process_from api p load c i lines) (process_from api' p load' c i lines)
  unfolding process_from
  process_from-Agrees i lines =
      elim i.args
        as (λ a.
          Agrees Any (process_from api p load c (record i { args = a }) lines)
            (process_from api' p load' c (record i { args = a }) lines)) [
              | string args ↦ process_from_string-Agrees args i lines
              | array _ ↦ Agrees-lift-Any _
              | object ↦ Agrees-lift-Any _
            ]

  process_token-Agrees :
      (token : Option Text) (i : Instruction) (lines : List Text)
      → Agrees Any
          (process_token api p load c token i lines)
          (process_token api' p load' c token i lines)
  unfolding process_token
  process_token-Agrees none i lines = Agrees-pure-Any _
  process_token-Agrees (some token) i lines = search (agree_rules, include_stage-Agrees)

  load_env_file-Agrees :
      (s : SourceApi.Source api) (prefix : Text)
      → P s
      → Agrees Any (load_env_file api p s prefix) (load_env_file api' p s prefix)
  unfolding load_env_file
  load_env_file-Agrees s prefix h =
      Agrees-bind-Any _ _ _ _ (Agrees-call _ _ (λ w. confined.alike s w h) (λ _ _ _. tt))
        (λ _. Agrees-pure-Any _)

  included_content-Agrees :
      (kind : IncludeType) (s : SourceApi.Source api) (alias : Text)
      → P s
      → Agrees Any
          (included_content api p load c kind s alias)
          (included_content api' p load' c kind s alias)
  unfolding included_content
  included_content-Agrees dockerfile s alias h = below s none alias (c.nesting_level == 0) h
  included_content-Agrees arg s alias h = load_env_file-Agrees s (codes "ARG ") h
  included_content-Agrees env s alias h = load_env_file-Agrees s (codes "ENV ") h
  included_content-Agrees label s alias h = load_env_file-Agrees s (codes "LABEL ") h

  process_include-Agrees :
      (kind : IncludeType) (i : Instruction) (lines : List Text)
      → Agrees Any
          (process_include api p load c kind i lines)
          (process_include api' p load' c kind i lines)
  unfolding process_include resolve_source
  process_include-Agrees kind i lines = Agrees-bind-Any _ _ _ _ (Agrees-lift-Any _) (λ ref.
      Agrees-bind {P = P} _ _ _ _
        (Agrees-lift _
          (λ child e. confined.included ref c.parent_source child c.docker_context _ inside e))
        (λ child h.
          Agrees-bind-Any _ _ _ _ (included_content-Agrees kind child _ h)
            (λ _. Agrees-pure-Any _)))

  pub process-Agrees :
      (i : Instruction) (lines : List Text)
      → Agrees Any (process api p load c i lines) (process api' p load' c i lines)
  unfolding process process_from_param
  process-Agrees i lines = Agrees-if _ _ _ _ _ (process_from-Agrees i lines) (
      Agrees-if _ _ _ _ _ (process_token-Agrees (from_param_match i.raw) i lines) (
        Agrees-if _ _ _ _ _ (process_include-Agrees dockerfile i lines) (
          Agrees-if _ _ _ _ _ (process_include-Agrees arg i lines) (
            Agrees-if _ _ _ _ _ (process_include-Agrees env i lines)
              (Agrees-if _ _ _ _ _ (process_include-Agrees label i lines) (Agrees-pure-Any _))))))
