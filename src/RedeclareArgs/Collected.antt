-- ===== src/RedeclareArgs/Collected.antt =====
-- The ARGs that are declared at the top of the compiled file.
use dockerfile_x.Common.{
  ◌≡◌, Bool, true, false, not, ◌&&◌, Option, none, some, List, [], ◌∷◌, Text, codes, if◌then◌else◌,
  same, starts_with, any,
}
use dockerfile_x.Errors.{Result, ok, err}
use dockerfile_x.Packages.{Packages}
use dockerfile_x.Instruction.{Instruction, is_from}
use dockerfile_x.Included.{parse_start_comment, field}
use dockerfile_x.RedeclareArgs.{State, add, arg_line, opens_scope}

-- The include type of a start comment is that of a FROM or a `--from`.
abbrev pub includes_stage : Option (List (Text × Text)) → Bool
includes_stage none = false
includes_stage (some attrs) = opens_scope (field (codes "includeType") attrs)

-- A comment that opens a file that a FROM or a `--from` includes.
unfoldable pub opens : Instruction → Bool
unfolding same starts_with parse_start_comment field
opens i =
    same i.name (codes "COMMENT")
    && (starts_with (codes "# DOCKERFILE-X:START") i.raw
        && includes_stage (parse_start_comment i.raw))

-- Of the instructions above, with the nearest in front, the first that is a FROM or opens a file opens one.
unfoldable pub is_opened : List Instruction → Bool
unfolding same opens
is_opened [] = false
is_opened (i ∷ above) =
    let further = is_opened above in if is_from i then false else if opens i then true else further

-- An ARG below a FROM, and below the start of an included file with no FROM in between.
unfoldable pub is_redeclared : List Instruction → Instruction → Bool
unfolding same is_opened
is_redeclared above i = same i.name (codes "ARG") && (any is_from above && is_opened above)

-- The lines of these ARGs in order, below the instructions `above`.
unfoldable pub redeclared : List Instruction → List Instruction → List Text
unfolding is_redeclared
redeclared above [] = []
redeclared above (i ∷ is) =
    let rest = redeclared (i ∷ above) is in
    if is_redeclared above i then arg_line i.args ∷ rest else rest

module _ (above : List Instruction) (s : State) where
  -- The state says what stands above.
  abbrev IsAt : Type 0
  IsAt = (s.in_global_top ≡ not (any is_from above)) × (s.in_local_top ≡ is_opened above)

module _ (above : List Instruction) (i : Instruction) (s : State) where
  -- The state behind an instruction, and what the instruction adds.
  abbrev Behind : Result State → Type 0
  Behind (ok t) =
      IsAt (i ∷ above) t
      × (t.all_args
          ≡ (if is_redeclared above i then add (arg_line i.args) s.all_args else s.all_args))
  Behind (err e) = Unit
