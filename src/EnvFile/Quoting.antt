-- ===== src/EnvFile/Quoting.antt =====
-- The values of an `.env` file between the double quotes of an instruction.
use mathlib.Core.Option.{map as option_map}
use dockerfile_x.Common.{
  ℕ, Bool, true, false, ◌||◌, Option, none, some, [], ◌∷◌, ◌++◌, Text, ◌==◌, if◌then◌else◌,
}

-- A reader of the text between double quotes by the rules of `processDoubleQuote` in BuildKit's shell/lex.go, with
-- the backslash as escape token: it takes a quote, a dollar sign or a backslash with it, and stays where it stands
-- before any other unit. A backslash at the end of a line joins the next line, before that reader sees it.
pub data Mode : Type 0 where
  plain : Mode
  escaped : Mode

-- The units that end the quotes, begin a variable or end the line.
abbrev pub is_refused : ℕ → Bool
is_refused c = c == b'"' || c == b'$' || c == 10

abbrev pub is_escapable : ℕ → Bool
is_escapable c = c == b'"' || c == b'$' || c == b'\\'

unfoldable pub next : Mode → ℕ → Option Mode
next plain c = if c == b'\\' then some escaped else if is_refused c then none else some plain
next escaped c = some plain

unfoldable pub emitted : Mode → ℕ → Text
emitted plain c = if c == b'\\' then [] else c ∷ []
emitted escaped c = if c == 10 then [] else if is_escapable c then c ∷ [] else b'\\' ∷ c ∷ []

-- What is read, or `none` where the quotes would end early, a variable would be read, or the line would end.
unfoldable pub read_quoted : Mode → Text → Option Text
unfolding next emitted
read_quoted plain [] = some []
read_quoted escaped [] = none
read_quoted m (c ∷ s) = elim (next m c) [
  | none ↦ none
  | some m' ↦ option_map (λ t. emitted m c ++ t) (read_quoted m' s)
]

-- The value with each `\r\n` turned into `\n`; the flag says that a carriage return is held back.
unfoldable pub unix_from : Bool → Text → Text
unix_from true [] = 13 ∷ []
unix_from false [] = []
unix_from held (c ∷ s) =
    let line = 10 ∷ unix_from false s in
    let hold = (if held then 13 ∷ [] else []) ++ unix_from true s in
    let copy = (if held then 13 ∷ [] else []) ++ c ∷ unix_from false s in
    if c == 10 then line else if c == 13 then hold else copy

-- A backtick is read with a backslash in front, and a newline as a backslash and an `n`.
unfoldable pub as_read : Text → Text
as_read [] = []
as_read (c ∷ s) =
    let rest = as_read s in
    if c == b'`' then b'\\' ∷ c ∷ rest else if c == 10 then b'\\' ∷ b'n' ∷ rest else c ∷ rest

abbrev is_special : ℕ → Bool
is_special c = c == b'\\' || c == b'$' || c == b'"' || c == b'`'

-- The four escapes of `cleanValue` in one pass.
unfoldable escape : Text → Text
escape [] = []
escape (c ∷ s) = let rest = escape s in if is_special c then b'\\' ∷ c ∷ rest else c ∷ rest
