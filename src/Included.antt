-- ===== src/Included.antt =====
-- src/core/generateIncluded.js and src/lib/parseDockerfileXStartComment.js: the comments around an
-- included text, and how the first of them is read back.
pub mod RoundTrip
use mathlib.Core.List.{reverse}
use dockerfile_x.Common.{
  ℕ, Bool, true, false, ◌||◌, ◌&&◌, not, Option, none, some, List, [], ◌∷◌, ◌++◌, Text, codes, ◌==◌,
  if◌then◌else◌, join, newline, same, strip_prefix,
}
use dockerfile_x.Common.Split.{split_at, split_spaces}

abbrev attribute : Text → Text → Text
attribute key value = key ++ (codes "=\"" ++ (value ++ codes "\""))

-- `attrsStr`
unfoldable pub attributes : Text → Text → Text → Text
unfolding join
attributes include_path_relative relative_file_path including_instruction = join (codes " ") (
    attribute (codes "file") include_path_relative
    ∷ attribute (codes "includedBy") relative_file_path
    ∷ attribute (codes "includeType") including_instruction
    ∷ [])

abbrev pub start_prefix : Text
start_prefix = codes "# DOCKERFILE-X:START "

unfoldable pub generate_included : Text → Text → Text → Text → Text
unfolding attributes
generate_included include_path_relative relative_file_path included_content including_instruction =
    let attrs = attributes include_path_relative relative_file_path including_instruction in
    start_prefix
    ++ (attrs
        ++ (newline
            ++ (included_content
                ++ (newline ++ (codes "# DOCKERFILE-X:END " ++ (attrs ++ newline))))))

abbrev is_quote : ℕ → Bool
is_quote c = c == b'"' || c == b'\''

abbrev drop_quote : Text → Text
drop_quote [] = []
drop_quote (c ∷ s) = if is_quote c then s else c ∷ s

-- `value.replace(/^["']|["']$/g, "")`: the `$` is the end of the text, and a text of one quote is gone
-- after the first match.
unfoldable pub unquote : Text → Text
unquote value = reverse (drop_quote (reverse (drop_quote value)))

-- `map[key] = cleanedValue` for a pair with a key and a value that are not empty.
abbrev assign : List Text → List (Text × Text) → List (Text × Text)
assign [] m = m
assign (key ∷ []) m = m
assign ([] ∷ value ∷ _) m = m
assign ((c ∷ key) ∷ [] ∷ _) m = m
assign ((c ∷ key) ∷ (d ∷ value) ∷ _) m = (c ∷ key, unquote (d ∷ value)) ∷ m

-- The loop over the pairs; the last assignment stands in front.
unfoldable pub read_pairs : List Text → List (Text × Text) → List (Text × Text)
unfolding split_at unquote
read_pairs [] m = m
read_pairs (pair ∷ pairs) m = read_pairs pairs (assign (split_at b'=' pair) m)

-- `map[key]`
unfoldable pub field : Text → List (Text × Text) → Option Text
unfolding same
field k [] = none
field k ((j, v) ∷ m) = if same j k then some v else field k m

unfoldable pub parse_start_comment : Text → Option (List (Text × Text))
unfolding strip_prefix split_spaces read_pairs
parse_start_comment line = elim (strip_prefix start_prefix line) [
  | none ↦ none
  | some key_value_string ↦ some (read_pairs (split_spaces key_value_string) [])
]
