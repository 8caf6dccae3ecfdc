-- ===== src/Names.antt =====
-- src/utils/generateFilePathSlug.js, sanitizeStageName.js, shortHash.js and src/regex/stageNameFilter.js:
-- stage names made of file paths and of other stage names; `basename` and `extname` of Node's `path`.
pub mod Bounds
use mathlib.Core.List.{reverse}
use dockerfile_x.Common.{
  ℕ, ◌-◌, Bool, true, false, not, ◌&&◌, ◌||◌, Option, none, some, List, [], ◌∷◌, ◌++◌, map, Text,
  codes, ◌==◌, ltb, if◌then◌else◌, is_upper, is_lower, is_digit, length, take, same, ends_with,
  take_while, drop_while, to_lower,
}
use dockerfile_x.Packages.{Packages}

-- The complement of the class in /[^a-zA-Z0-9_-]/g.
abbrev pub is_name_unit : ℕ → Bool
is_name_unit c = is_lower c || is_upper c || is_digit c || c == b'_' || c == b'-'

-- `s.replace(stageNameFilterRegex, sub)` for one code unit `sub`.
unfoldable pub filter_name : ℕ → Text → Text
filter_name sub = map (λ c. if is_name_unit c then c else sub)

-- The last part of a path, without the slashes behind it.
unfoldable pub last_part : Text → Text
unfolding take_while drop_while
last_part path =
    reverse (take_while (λ c. not (c == b'/')) (drop_while (λ c. c == b'/') (reverse path)))

-- The part of a name before its last dot and the part from that dot on, if a dot stands behind its
-- first unit.
unfoldable pub cut_extension : Text → Option (Text × Text)
cut_extension [] = none
cut_extension (c ∷ s) = elim (cut_extension s) [
  | some (stem, extension) ↦ some (c ∷ stem, extension)
  | none ↦ elim s [ [] ↦ none | d ∷ r ↦ if d == b'.' then some (c ∷ [], d ∷ r) else none ]
]

-- `path.extname(p)`
unfoldable pub extname : Text → Text
unfolding last_part cut_extension same
extname path =
    let base = last_part path in
    if same base (codes "..")
    then []
    else elim (cut_extension base) [ none ↦ [] | some (stem, extension) ↦ extension ]

-- `path.basename(p, path.extname(p))`
unfoldable pub basename : Text → Text
unfolding last_part cut_extension same
basename path =
    let base = last_part path in
    if same base (codes "..")
    then base
    else elim (cut_extension base) [ none ↦ base | some (stem, extension) ↦ stem ]

module _ (p : Packages) where
  unfoldable pub generate_file_path_slug : Text → Text
  unfolding basename to_lower filter_name
  generate_file_path_slug file_path =
      let filename = filter_name b'-' (to_lower (basename file_path)) in
      let hash = take 6 (p.md5 file_path) in take 6 filename ++ hash

  unfoldable pub sanitize_stage_name : Text → Text
  unfolding to_lower filter_name
  sanitize_stage_name stagename =
      let name = filter_name b'_' (to_lower stagename) in
      if ltb 255 (length name)
      then take 244 name ++ (codes "-" ++ take 10 (p.sha256 name))
      else name

  unfoldable pub short_hash : Text → ℕ → Text
  short_hash input size = take size (p.sha256 input)
