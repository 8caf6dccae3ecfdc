-- ===== src/Parse/Ranges.antt =====
-- What the loop of parseDockerfile.js makes of the commands: one instruction for each that is kept, with the
-- lines that it stands on; the commands that the body of a here-document was taken for are passed over.
use dockerfile_x.Common.{
  ℕ, ◌+◌, ◌-◌, ◌≤◌, ◌<◌, ◌≡◌, ◌⊎◌, Bool, true, false, some, List, [], ◌∷◌, Text, codes, get_elem?,
  same, All, to_upper,
}
use dockerfile_x.Packages.{Command}
use dockerfile_x.Instruction.{Instruction}
use dockerfile_x.Regex.{here_doc_match}
use dockerfile_x.Parse.{
  start_line_index, get_raw, starts_with_instruction, closes, is_removed, args_to_string,
  normalize_args,
}

-- The line from which an instruction goes back to its keyword: the nearest one at or above `i` that starts
-- with it, or else the first of the file.
pub record IsStart (lines : List Text) (name : Text) (i s : ℕ) : Type 0 where
  pub le : s ≤ i
  pub begins : (s ≡ 0) ⊎ (starts_with_instruction (get_elem? lines s) name ≡ true)
  pub nearest : (j : ℕ) → s < j → j ≤ i → starts_with_instruction (get_elem? lines j) name ≡ false

-- The first of the commands that closes a here-document, and those behind it.
pub data FirstCloses (delimiter : Text) : List Command → Command → List Command → Type 0 where
  here :
      (c : Command) (cs : List Command)
      → closes delimiter c ≡ true
      → FirstCloses delimiter (c ∷ cs) c cs
  later :
      (c : Command) (cs : List Command) (d : Command) (rest : List Command)
      → closes delimiter c ≡ false
      → FirstCloses delimiter cs d rest
      → FirstCloses delimiter (c ∷ cs) d rest

-- No command closes the here-document that a RUN begins, if it begins one.
unfoldable pub HasNoBody : Command → List Command → Type 0
HasNoBody c cs =
    (delimiter : Text)
    → same (to_upper c.name) (codes "RUN") ≡ true
    → here_doc_match (args_to_string c.args) ≡ some delimiter
    → All (λ d. closes delimiter d ≡ false) cs

-- The command `d` closes the here-document of the RUN `c`, and `rest` stands behind it.
pub record HasBody (c : Command) (cs : List Command) (d : Command) (rest : List Command)
    : Type 0 where
  pub delimiter : Text
  pub is_run : same (to_upper c.name) (codes "RUN") ≡ true
  pub begun : here_doc_match (args_to_string c.args) ≡ some delimiter
  pub closed : FirstCloses delimiter cs d rest

-- The instruction of a command whose last line is `last`: its text is that of its lines.
pub record IsInstruction (lines : List Text) (c : Command) (last : ℕ) (i : Instruction)
    : Type 0 where
  pub same_name : i.name ≡ c.name
  pub same_args : i.args ≡ normalize_args (to_upper c.name) c.args
  pub counted : 1 ≤ i.lineno
  pub comment_line :
      same (to_upper c.name) (codes "COMMENT") ≡ true → i.lineno ≡ start_line_index c + 1
  pub start_line :
      same (to_upper c.name) (codes "COMMENT") ≡ false
      → IsStart lines (to_upper c.name) (start_line_index c) (i.lineno - 1)
  pub text : i.raw ≡ get_raw lines (i.lineno - 1) last

-- The instructions of the commands of a file with these lines.
pub data AreRead (remove : Bool) (lines : List Text)
    : List Command → List Instruction → Type 0 where
  done : AreRead remove lines [] []
  removed :
      (c : Command) (cs : List Command) (is : List Instruction)
      → is_removed remove (to_upper c.name) c ≡ true
      → AreRead remove lines cs is
      → AreRead remove lines (c ∷ cs) is
  alone :
      (c : Command) (cs : List Command) (i : Instruction) (is : List Instruction)
      → is_removed remove (to_upper c.name) c ≡ false
      → HasNoBody c cs
      → IsInstruction lines c (start_line_index c) i
      → AreRead remove lines cs is
      → AreRead remove lines (c ∷ cs) (i ∷ is)
  with_body :
      (c : Command) (cs : List Command) (d : Command) (rest : List Command) (i : Instruction)
      (is : List Instruction)
      → is_removed remove (to_upper c.name) c ≡ false
      → HasBody c cs d rest
      → IsInstruction lines c (start_line_index d) i
      → AreRead remove lines rest is
      → AreRead remove lines (c ∷ cs) (i ∷ is)
