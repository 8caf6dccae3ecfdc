-- ===== src/Regex.antt =====
-- src/regex and the regular expressions written in place, each as a function that finds its match.
use dockerfile_x.Common.{
  ℕ, zero, suc, ◌+◌, Bool, true, false, not, ◌||◌, Option, none, some, or_else, List, [], ◌∷◌, ◌++◌,
  Text, codes, ◌==◌, if◌then◌else◌, all, is_upper, is_lower, is_digit, is_space, strip_prefix,
  strip_prefix_i, take_while, drop_while, is_some,
}
use dockerfile_x.Common.Split.{split, space_length}
use dockerfile_x.Names.{is_name_unit}

-- What `found` gives for the first suffix of a text at which it gives something.
unfoldable pub leftmost {ℓ} : {A : Type ℓ} → (Text → Option A) → Text → Option A
leftmost found [] = found []
leftmost found (c ∷ s) = or_else (found (c ∷ s)) (leftmost found s)

abbrev non_empty : Text → Option Text
non_empty [] = none
non_empty (c ∷ s) = some (c ∷ s)

-- The group of /AS ([a-zA-Z0-9_-]+)$/ at the head of a text.
unfoldable pub as_here : Text → Option Text
unfolding strip_prefix
as_here s = elim (strip_prefix (codes "AS ") s) [
  | none ↦ none
  | some name ↦ if all is_name_unit name then non_empty name else none
]

-- `s.match(asMatchRegex)?.[1]`
unfoldable pub as_match : Text → Option Text
unfolding leftmost as_here
as_match = leftmost as_here

-- `includeFromRegex.test(s)`, /^[./]/
unfoldable pub include_from : Text → Bool
include_from [] = false
include_from (c ∷ s) = c == b'.' || c == b'/'

-- /#\s*syntax\s*=\s*[^\s]+/
syntax_here : Text → Option (Unit {0})
unfolding strip_prefix drop_while is_space
syntax_here s = elim (strip_prefix (codes "#") s) [
  | none ↦ none
  | some a ↦ elim (strip_prefix (codes "syntax") (drop_while is_space a)) [
    | none ↦ none
    | some b ↦ elim (strip_prefix (codes "=") (drop_while is_space b)) [
      | none ↦ none
      | some r ↦ elim (drop_while is_space r) [ [] ↦ none | _ ↦ some tt ]
    ]
  ]
]

-- `syntaxCommentRegex.test(s)`
unfoldable pub syntax_comment : Text → Bool
unfolding leftmost syntax_here
syntax_comment s = is_some (leftmost syntax_here s)

-- The length of the match of /\s+AS\s+/i at the head of a text.
as_length : Text → ℕ
unfolding space_length strip_prefix_i drop_while is_space
as_length s = elim (space_length s) [
  | zero ↦ 0
  | suc before ↦ elim (strip_prefix_i (codes "as") (drop_while is_space s)) [
    | none ↦ 0
    | some r ↦ elim (space_length r) [ zero ↦ 0 | suc after ↦ before + after + 4 ]
  ]
]

-- `s.split(/\s+AS\s+/i)`
unfoldable pub split_as : Text → List Text
unfolding split as_length
split_as = split as_length

-- `s.split(/ AS /i)`
unfoldable pub split_spaced_as : Text → List Text
unfolding split strip_prefix_i
split_spaced_as = split λ s. elim (strip_prefix_i (codes " as ") s) [ none ↦ 0 | some _ ↦ 4 ]

-- Whether /(\s+)as(\s+)/ matches at the `as` behind a white space.
abbrev as_then_space : Text → Option Text
as_then_space s = elim (strip_prefix (codes "as") s) [
  | none ↦ none
  | some r ↦ elim r [ [] ↦ none | c ∷ t ↦ if is_space c then some (c ∷ t) else none ]
]

-- The second argument says whether a white space stands before, outside the last match. The white space
-- behind a match belongs to it, so `skip` holds until that run ends.
upper_as_from : Text → Bool → ℕ → Text
unfolding strip_prefix is_space
upper_as_from [] before skip = []
upper_as_from (c ∷ s) before (suc skip) = upper_as_from s false skip
upper_as_from (c ∷ s) before zero = elim before [
  | false ↦ c ∷ upper_as_from s (is_space c) zero
  | true ↦ elim (as_then_space (c ∷ s)) [
    | none ↦ c ∷ upper_as_from s (is_space c) zero
    | some r ↦ codes "AS" ++ (take_while is_space r ++ upper_as_from s false (suc (space_length r)))
  ]
]

-- `s.replace(/(\s+)as(\s+)/g, "$1AS$2")`
unfoldable pub upper_as : Text → Text
unfolding upper_as_from take_while space_length
upper_as s = upper_as_from s false 0

abbrev is_word_unit : ℕ → Bool
is_word_unit c = is_upper c || is_lower c || is_digit c || c == b'_'

-- The word of a here-document: bare, or between two equal quotes.
here_doc_word : Text → Option Text
unfolding take_while drop_while
here_doc_word [] = none
here_doc_word (c ∷ s) =
    if c == b'\'' || c == b'"'
    then elim (drop_while is_word_unit s) [
      | [] ↦ none
      | d ∷ _ ↦ if d == c then non_empty (take_while is_word_unit s) else none
    ]
    else non_empty (take_while is_word_unit (c ∷ s))

here_doc_here : Text → Option Text
unfolding here_doc_word strip_prefix is_space
here_doc_here s = elim (strip_prefix (codes "<<") s) [
  | none ↦ none
  | some r ↦ elim (strip_prefix (codes "-") r) [
    | none ↦ here_doc_word (drop_while is_space r)
    | some t ↦ here_doc_word (drop_while is_space t)
  ]
]

-- The second group of /<<-?\s*(['"]?)([A-Za-z0-9_]+)\1/
unfoldable pub here_doc_match : Text → Option Text
unfolding leftmost here_doc_here
here_doc_match = leftmost here_doc_here

-- A match cut into what stands before a group, the group, and what stands behind it.
abbrev pub Cut : Type 0
Cut = Text × Text × Text

abbrev in_mount_name : ℕ → Bool
in_mount_name c = not (c == b',' || c == b' ')

from_here : Text → Option Cut
unfolding strip_prefix take_while drop_while
from_here s = elim (strip_prefix (codes "from=") s) [
  | none ↦ none
  | some r ↦ elim (take_while in_mount_name r) [
    | [] ↦ none
    | c ∷ name ↦ some (codes "from=", c ∷ name, drop_while in_mount_name r)
  ]
]

abbrev push_before : Text → Option Cut → Option Cut
push_before p none = none
push_before p (some (a, b, c)) = some (p ++ a, b, c)

-- [^ ]*from=([^, ]+): the star takes as much as it can, so a later `from=` of the run comes first.
last_from : Text → Option Cut
unfolding from_here
last_from [] = from_here []
last_from (c ∷ s) =
    let later = push_before (c ∷ []) (last_from s) in
    let here = from_here (c ∷ s) in if c == b' ' then here else or_else later here

mount_here : Text → Option Cut
unfolding last_from
mount_here s = elim (strip_prefix (codes "--mount=") s) [
  | none ↦ none
  | some r ↦ push_before (codes "--mount=") (last_from r)
]

-- /--mount=[^ ]*from=([^, ]+)/: all that stands before the group, the group, and the rest of the text.
unfoldable pub mount_match : Text → Option Cut
unfolding mount_here
mount_match [] = mount_here []
mount_match (c ∷ s) = or_else (mount_here (c ∷ s)) (push_before (c ∷ []) (mount_match s))

abbrev not_blank : ℕ → Bool
not_blank c = not (c == b' ')

-- [^ ]+ behind one of the prefixes
ref_behind : List Text → Text → Option Text
unfolding strip_prefix_i take_while
ref_behind [] s = none
ref_behind (p ∷ ps) s = elim (strip_prefix_i p s) [
  | none ↦ ref_behind ps s
  | some r ↦ elim (take_while not_blank r) [
    | [] ↦ ref_behind ps s
    | _ ↦ some (take_while not_blank s)
  ]
]

abbrev ref_prefixes : List Text
ref_prefixes =
    codes "http://"
    ∷ codes "https://"
    ∷ codes "git+"
    ∷ codes "oci://"
    ∷ codes "./"
    ∷ codes "../"
    ∷ codes "/"
    ∷ []

from_param_here : Text → Option Text
unfolding ref_behind
from_param_here s = elim (strip_prefix_i (codes "--from=") s) [
  | none ↦ none
  | some r ↦ ref_behind ref_prefixes r
]

-- The group of `FROM_RE` of src/instruction/fromParam.js.
unfoldable pub from_param_match : Text → Option Text
unfolding leftmost from_param_here
from_param_match = leftmost from_param_here
