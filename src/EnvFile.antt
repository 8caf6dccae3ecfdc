-- ===== src/EnvFile.antt =====
-- src/core/loadEnvFileAndPrefix.js: the variables of an `.env` file as Dockerfile instructions.
pub mod Quoting
use dockerfile_x.Common.{
  ℕ, Bool, true, false, ◌||◌, List, [], ◌∷◌, ◌++◌, map, Text, codes, ◌==◌, if◌then◌else◌, is_upper,
  is_lower, is_digit, join, newline,
}
use dockerfile_x.Packages.{Packages}

-- The complement of the class in /[^A-Z0-9._-]/gi.
abbrev pub is_key_unit : ℕ → Bool
is_key_unit c = is_upper c || is_lower c || is_digit c || c == b'.' || c == b'_' || c == b'-'

-- `key.replace(/[^A-Z0-9._-]/gi, "")`
unfoldable pub clean_key : Text → Text
clean_key [] = []
clean_key (c ∷ s) = if is_key_unit c then c ∷ clean_key s else clean_key s

-- `s.replace(/x/g, "\\x")` for one unit
unfoldable pub escape_unit : ℕ → Text → Text
escape_unit x [] = []
escape_unit x (c ∷ s) = let rest = escape_unit x s in if c == x then b'\\' ∷ c ∷ rest else c ∷ rest

abbrev pub escaped_newline : Text
escaped_newline = b'\\' ∷ b'n' ∷ b'\\' ∷ 10 ∷ []

-- `s.replace(/\r?\n/g, "\\n\\\n")`; the flag says that a carriage return was read and not yet written.
unfoldable pub escape_newlines_from : Bool → Text → Text
escape_newlines_from true [] = 13 ∷ []
escape_newlines_from false [] = []
escape_newlines_from held (c ∷ s) =
    let before = if held then 13 ∷ [] else [] in
    let line = escaped_newline ++ escape_newlines_from false s in
    let hold = before ++ escape_newlines_from true s in
    let copy = before ++ c ∷ escape_newlines_from false s in
    if c == 10 then line else if c == 13 then hold else copy

unfoldable pub escape_newlines : Text → Text
unfolding escape_newlines_from
escape_newlines s = escape_newlines_from false s

unfoldable pub clean_value : Text → Text
unfolding escape_unit escape_newlines
clean_value value =
    escape_newlines
      (escape_unit b'`' (escape_unit b'"' (escape_unit b'$' (escape_unit b'\\' value))))

unfoldable pub format_docker_instruction : Text → Text → Text → Text
unfolding clean_key clean_value
format_docker_instruction prefix key value =
    prefix ++ (clean_key key ++ (codes "=\"" ++ (clean_value value ++ codes "\"")))

abbrev pub format_entry : Text → Text × Text → Text
format_entry prefix (key, value) = format_docker_instruction prefix key value

-- `loadEnvFileAndPrefix` behind its `read`.
unfoldable pub load_env_content : Packages → Text → Text → Text
unfolding join
load_env_content p env_content prefix =
    join newline (map (format_entry prefix) (p.dotenv_parse env_content))
