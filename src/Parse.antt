-- ===== src/Parse.antt =====
-- src/lib/parseDockerfile.js: the commands of `docker-file-parser`, without syntax comments, each with
-- the lines of the file that it stands on, and with the body of a here-document joined to its RUN.
pub mod Ranges
pub mod Reading
use dockerfile_x.Common.{
  ℕ, zero, suc, ◌+◌, ◌-◌, Bool, true, false, ◌&&◌, ◌||◌, Option, none, some, List, [], ◌∷◌, Text,
  codes, if◌then◌else◌, take, drop, get_elem?, same, join, trim, to_upper, drop_while, is_space,
  newline,
}
use dockerfile_x.Common.Split.{split_lines, split_spaces}
use dockerfile_x.Errors.{Result, ok, ◌>>=◌, ◌>>◌}
use dockerfile_x.Packages.{Packages, Command, Args, string, array, object}
use dockerfile_x.Instruction.{Instruction, generate_raw_instruction}
use dockerfile_x.Regex.{syntax_comment, upper_as, here_doc_match}

-- `String(args ?? "")`
abbrev args_to_string : Args → Text
args_to_string (string s) = s
args_to_string (array l) = join (codes ",") l
args_to_string object = codes "[object Object]"

-- Of the four keys that are tried, commands have `lineno`; 0 is falsy, and the fallback is 0 too.
unfoldable pub start_line_index : Command → ℕ
start_line_index command = command.lineno - 1

-- `lines.slice(start, end + 1).join("\n")`
unfoldable pub get_raw : List Text → ℕ → ℕ → Text
unfolding join
get_raw lines start end = join newline (drop start (take (end + 1) lines))

abbrev line_or_empty : Option Text → Text
line_or_empty none = []
line_or_empty (some line) = line

abbrev first_token : List Text → Text
first_token [] = []
first_token (token ∷ _) = token

-- The name is in upper case already.
unfoldable pub starts_with_instruction : Option Text → Text → Bool
unfolding same to_upper drop_while is_space split_spaces
starts_with_instruction line [] = false
starts_with_instruction line (c ∷ name) =
    let token = first_token (split_spaces (drop_while is_space (line_or_empty line))) in
    same (to_upper token) (to_upper (c ∷ name))

-- The `while` loop that moves `startIdx` back to the line on which the instruction starts.
unfoldable pub find_start : List Text → Text → ℕ → ℕ
unfolding starts_with_instruction
find_start lines name zero = zero
find_start lines name (suc i) =
    let back = find_start lines name i in
    if starts_with_instruction (get_elem? lines (suc i)) name then suc i else back

-- `seg.name === delimiter || segRaw === delimiter`
unfoldable pub closes : Text → Command → Bool
unfolding same trim
closes delimiter command =
    same command.name delimiter
    || same (elim command.raw [ none ↦ [] | some raw ↦ trim raw ]) delimiter

abbrev Close : Type 0
Close = Option (ℕ × ℕ)

abbrev one_more : Close → Close
one_more none = none
one_more (some (line, count)) = some (line, suc count)

-- The line of the command that closes a here-document, and how many of the commands behind the RUN
-- belong to it.
unfoldable pub find_here_doc_close : Text → List Command → Option (ℕ × ℕ)
unfolding closes start_line_index
find_here_doc_close delimiter [] = none
find_here_doc_close delimiter (c ∷ cs) =
    let later = one_more (find_here_doc_close delimiter cs) in
    if closes delimiter c then some (start_line_index c, 1) else later

abbrev here_doc_close : Text → Command → List Command → Close
here_doc_close name c cs =
    if same name (codes "RUN")
    then elim (here_doc_match (args_to_string c.args)) [
      | none ↦ none
      | some delimiter ↦ find_here_doc_close delimiter cs
    ]
    else none

abbrev close_line : ℕ → Close → ℕ
close_line start none = start
close_line start (some (line, count)) = line

abbrev merged : Close → ℕ
merged none = 0
merged (some (line, count)) = count

abbrev normalize_args : Text → Args → Args
normalize_args name (string s) = if same name (codes "FROM") then string (upper_as s) else string s
normalize_args name (array l) = array l
normalize_args name object = object

abbrev is_removed : Bool → Text → Command → Bool
is_removed remove_syntax_comments name c =
    same name (codes "COMMENT")
    && (remove_syntax_comments && syntax_comment (args_to_string c.args))

module _ (p : Packages) where
  -- `generateRawInstruction` is called on a FROM, and what it returns is overwritten.
  abbrev check_from : Text → Args → Text → Result Text
  check_from name args raw =
      if same name (codes "FROM") then generate_raw_instruction p name args raw else ok []

  -- One round of the loop for a command that is kept, with `lines` and the commands behind it.
  unfoldable pub read_command : List Text → Command → List Command → Result Instruction
  unfolding same to_upper upper_as generate_raw_instruction here_doc_match find_here_doc_close
      find_start get_raw start_line_index
  read_command lines c cs = do
    let name = to_upper c.name
    let args = normalize_args name c.args
    check_from name args []
    let start = start_line_index c
    let first = if same name (codes "COMMENT") then start else find_start lines name start
    let last = close_line start (here_doc_close name c cs)
    ok (record { name = c.name; args = args; lineno = first + 1; raw = get_raw lines first last })

  abbrev cons_result : Result Instruction → Result (List Instruction) → Result (List Instruction)
  cons_result r rs = do i ← r; is ← rs; ok (i ∷ is)

  -- The loop over the commands; the last argument counts those still to be skipped.
  unfoldable pub read_commands : Bool → List Text → List Command → ℕ → Result (List Instruction)
  unfolding read_command syntax_comment same
  read_commands remove lines [] skip = ok []
  read_commands remove lines (c ∷ cs) (suc skip) = read_commands remove lines cs skip
  read_commands remove lines (c ∷ cs) zero =
      let name = to_upper c.name in
      elim (is_removed remove name c) [
        | true ↦ read_commands remove lines cs zero
        | false ↦
            cons_result (read_command lines c cs)
              (read_commands remove lines cs (merged (here_doc_close name c cs)))
      ]

  -- `parseDockerfile(content, { removeSyntaxComments })`
  unfoldable pub parse_dockerfile_with : Bool → Text → Result (List Instruction)
  unfolding read_commands split_lines
  parse_dockerfile_with remove_syntax_comments content = do
    commands ← p.parse content
    read_commands remove_syntax_comments (split_lines content) commands 0

  -- `parseDockerfile(content)`
  unfoldable pub parse_dockerfile : Text → Result (List Instruction)
  unfolding parse_dockerfile_with
  parse_dockerfile = parse_dockerfile_with true
