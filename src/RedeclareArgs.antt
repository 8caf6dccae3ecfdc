-- ===== src/RedeclareArgs.antt =====
-- src/lib/redeclareArgTop.js: the ARGs that stand before the first FROM of a file that a FROM or a
-- `--from` includes are declared once more at the top of the compiled file.
pub mod Collected
use dockerfile_x.Common.{
  ℕ, Bool, true, false, ◌||◌, Option, none, some, List, [], ◌∷◌, ◌++◌, Text, codes, if◌then◌else◌,
  same, starts_with, includes, join, newline,
}
use dockerfile_x.Errors.{Result, ok, err, type_error, ◌>>=◌}
use dockerfile_x.Packages.{Packages, Args, string, array, object}
use dockerfile_x.Instruction.{Instruction}
use dockerfile_x.Included.{parse_start_comment, field}
use dockerfile_x.Parse.{parse_dockerfile}

-- The local variables of the loop; `allArgs` is a set in the order of insertion.
pub record State : Type 0 where
  pub all_args : List Text
  pub in_global_top : Bool
  pub in_local_top : Bool

abbrev pub start : State
start = record { all_args = []; in_global_top = true; in_local_top = false }

-- `allArgs.add(s)`
unfoldable pub add : Text → List Text → List Text
unfolding includes
add s l = if includes s l then l else l ++ s ∷ []

abbrev pub opens_scope : Option Text → Bool
unfolding same
opens_scope none = false
opens_scope (some include_type) =
    same include_type (codes "from") || same include_type (codes "fromParam")

-- `"ARG " + instruction.args[0]`
abbrev pub arg_line : Args → Text
arg_line (string []) = codes "ARG undefined"
arg_line (string (c ∷ s)) = codes "ARG " ++ c ∷ []
arg_line (array []) = codes "ARG undefined"
arg_line (array (a ∷ l)) = codes "ARG " ++ a
arg_line object = codes "ARG undefined"

-- The body of the loop. The destructuring of null throws, for a comment that begins like a start
-- comment but has no blank behind it.
unfoldable pub step : Instruction → State → Result State
unfolding same starts_with parse_start_comment field add
step i s =
    if same i.name (codes "FROM")
    then ok (record s { in_global_top = false; in_local_top = false })
    else if same i.name (codes "COMMENT")
    then (if starts_with (codes "# DOCKERFILE-X:START") i.raw
        then elim (parse_start_comment i.raw) [
          | none ↦ err type_error
          | some attrs ↦ ok (
              if opens_scope (field (codes "includeType") attrs)
              then record s { in_local_top = true }
              else s)
        ]
        else ok s)
    else if same i.name (codes "ARG")
    then (if s.in_global_top
        then ok s
        else if s.in_local_top
        then ok (record s { all_args = add (arg_line i.args) s.all_args })
        else ok s)
    else ok s

unfoldable pub collect : List Instruction → State → Result State
unfolding step
collect [] s = ok s
collect (i ∷ is) s = do s' ← step i s; collect is s'

module _ (p : Packages) where
  unfoldable pub redeclare_arg_top : Text → Result Text
  unfolding parse_dockerfile collect join
  redeclare_arg_top docker_content = do
    instructions ← parse_dockerfile p docker_content
    s ← collect instructions start
    ok (join newline (s.all_args ++ docker_content ∷ []))
