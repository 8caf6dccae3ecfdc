-- ===== src/Packages.antt =====
-- The code outside the repository that the program calls on plain data: `docker-file-parser`, `dotenv`
-- and the digests of `crypto`.
use dockerfile_x.Common.{
  ℕ, ◌≡◌, Bool, true, ◌||◌, ◌&&◌, Option, List, Text, all, leb, is_digit, length,
}
use dockerfile_x.Errors.{Result}

-- The arguments of a parsed command: a string, an array of strings, or another object (the map of ENV
-- and LABEL, the command of ONBUILD).
pub data Args : Type 0 where
  string : Text → Args
  array : List Text → Args
  object : Args

-- A command of `docker-file-parser`. A comment has no `raw`. The line number is that of the last line
-- of the command, from 1.
pub record Command : Type 0 where
  pub name : Text
  pub args : Args
  pub lineno : ℕ
  pub raw : Option Text

-- `parse` is called with `includeComments: true`, and throws on a bad `# escape=` directive. The
-- digests are hexadecimal; `dotenv_parse` gives the entries of the object in order, and
-- `json_stringify` is `JSON.stringify` at an array of strings.
pub record Packages : Type 0 where
  pub parse : Text → Result (List Command)
  pub dotenv_parse : Text → List (Text × Text)
  pub json_stringify : List Text → Text
  pub md5 : Text → Text
  pub sha256 : Text → Text

abbrev pub is_hex : ℕ → Bool
is_hex c = is_digit c || leb b'a' c && leb c b'f'

-- What `crypto` documents of a digest in lower-case hexadecimal.
pub record IsHexDigest (size : ℕ) (hash : Text → Text) : Type 0 where
  pub hex : (s : Text) → all is_hex (hash s) ≡ true
  pub size_of : (s : Text) → length (hash s) ≡ size
