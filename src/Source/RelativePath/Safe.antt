-- ===== src/Source/RelativePath/Safe.antt =====
-- A path that `sanitizeRelativePath` lets through stays below the directory that it is joined to.
use mathlib.Core.Bool.{◌||◌, not}
use dockerfile_x.Common.{
  ℕ, zero, suc, ◌≡◌, ◌⊎◌, refl, Bool, true, false, Option, none, some, List, [], ◌∷◌, ◌++◌, Text,
  codes, ◌==◌, arith, any, Bool-cases, inl, inr, if◌then◌else◌, same, starts_with,
}
use dockerfile_x.Common.Split.{split_at, split_from, split_from_cut, split_from_keep, unit_length}
use dockerfile_x.Errors.{ok}
use dockerfile_x.Source.RelativePath.{is_separator, segments, strip_slashes, sanitize_relative_path}

-- A walk from a directory along the parts of a path, at a depth below it: `..` goes up, an empty part and
-- `.` stay, any other goes down. `none` where the walk leaves the directory.
pub walk : ℕ → List Text → Option ℕ
unfolding same
walk depth [] = some depth
walk depth (part ∷ parts) =
    let up : Option ℕ = elim depth [ zero ↦ none | suc n ↦ walk n parts ] in
    let stay = walk depth parts in
    let down = walk (suc depth) parts in
    if same (codes "..") part
    then up
    else if same [] part || same (codes ".") part
    then stay
    else down

-- Whether `..` is one of the parts.
abbrev dotted : List Text → Bool
dotted = any (same (codes ".."))

walk_total :
    (parts : List Text) (depth : ℕ) → dotted parts ≡ false → (n : ℕ) × (walk depth parts ≡ some n)
unfolding walk
walk_total [] depth h = (depth, refl)
walk_total (part ∷ parts) depth h = elim (Bool-cases (same (codes "..") part)) [
  | inl e ↦ cc
  | inr e ↦ elim (Bool-cases (same [] part || same (codes ".") part)) [
    | inl k ↦ rw e (rw k (walk_total parts depth (ground arith)))
    | inr k ↦ rw e (rw k (walk_total parts (suc depth) (ground arith)))
  ]
]

abbrev is_slash : ℕ → Bool
is_slash c = c == b'/'

abbrev by_slash : Text → Text → List Text
by_slash s cur = split_from (unit_length is_slash) s cur 0

abbrev by_separator : Text → Text → List Text
by_separator s cur = split_from (unit_length is_separator) s cur 0

-- A part with a unit other than a dot is not `..`.
abbrev has_other : Text → Bool
has_other = any (λ c. not (c == b'.'))

not-dotted_of_has_other : (s : Text) → has_other s ≡ true → same (codes "..") s ≡ false
unfolding same
not-dotted_of_has_other [] h = cc
not-dotted_of_has_other (a ∷ []) h = ground arith
not-dotted_of_has_other (a ∷ b ∷ []) h = ground arith
not-dotted_of_has_other (a ∷ b ∷ c ∷ s) h = ground arith

has_other-concat : (s : Text) (c : ℕ) → (c == b'.') ≡ false → has_other (s ++ c ∷ []) ≡ true
has_other-concat [] c h = ground arith
has_other-concat (a ∷ s) c h = ground (arith, has_other-concat s c h)

has_other-append : (s : Text) (c : ℕ) → has_other s ≡ true → has_other (s ++ c ∷ []) ≡ true
has_other-append [] c h = cc
has_other-append (a ∷ s) c h = ground (arith, has_other-append s c)

module _ (c : ℕ) (s cur cur' : Text) where
  -- The step at a separator: a backslash joins the current part, a slash ends it.
  separated :
      is_separator c ≡ true
      → (has_other (cur ++ c ∷ []) ≡ true
          → dotted (by_separator s []) ≡ false
          → dotted (by_slash s (cur ++ c ∷ [])) ≡ false)
      → (dotted (by_separator s []) ≡ false → dotted (by_slash s []) ≡ false)
      → (cur ≡ cur') ⊎ (has_other cur ≡ true)
      → dotted (by_separator (c ∷ s) cur') ≡ false
      → dotted (by_slash (c ∷ s) cur) ≡ false
  separated e join cut o h = elim (Bool-cases (is_slash c)) [
    | inl k ↦
        rw (split_from_cut is_slash c s cur k)
          (ground (arith, split_from_cut is_separator c s cur' e, not-dotted_of_has_other cur))
    | inr k ↦
        rw (split_from_keep is_slash c s cur k)
          (ground (arith, split_from_cut is_separator c s cur' e, has_other-concat cur c))
  ]

  kept :
      is_separator c ≡ false
      → (dotted (by_separator s (cur' ++ c ∷ [])) ≡ false
          → dotted (by_slash s (cur ++ c ∷ [])) ≡ false)
      → dotted (by_separator (c ∷ s) cur') ≡ false
      → dotted (by_slash (c ∷ s) cur) ≡ false
  kept e go h =
      rw (split_from_keep is_slash c s cur (ground arith))
        (go (rw (split_from_keep is_separator c s cur' e) at h))

dotted_end_same :
    (cur : Text) → dotted (by_separator [] cur) ≡ false → dotted (by_slash [] cur) ≡ false
unfolding split_from
dotted_end_same cur h = h

dotted_end_other : (cur : Text) → has_other cur ≡ true → dotted (by_slash [] cur) ≡ false
unfolding split_from
dotted_end_other cur o = ground (arith, not-dotted_of_has_other cur)

-- If no part between separators is `..`, no part between slashes is: for a current part that is the same
-- in both, or that holds another unit in the second.
mutual
  dotted_same :
      (s cur : Text) → dotted (by_separator s cur) ≡ false → dotted (by_slash s cur) ≡ false
  dotted_same [] cur h = dotted_end_same cur h
  dotted_same (c ∷ s) cur h = elim (Bool-cases (is_separator c)) [
    | inl e ↦
        separated c s cur cur e (λ k. dotted_other s (cur ++ c ∷ []) [] k) (dotted_same s [])
          (inl refl) h
    | inr e ↦ kept c s cur cur e (dotted_same s (cur ++ c ∷ [])) h
  ]

  dotted_other :
      (s cur cur' : Text)
      → has_other cur ≡ true
      → dotted (by_separator s cur') ≡ false
      → dotted (by_slash s cur) ≡ false
  dotted_other [] cur cur' o h = dotted_end_other cur o
  dotted_other (c ∷ s) cur cur' o h = elim (Bool-cases (is_separator c)) [
    | inl e ↦
        separated c s cur cur' e (λ k. dotted_other s (cur ++ c ∷ []) [] k) (dotted_same s [])
          (inr o) h
    | inr e ↦
        kept c s cur cur' e
          (dotted_other s (cur ++ c ∷ []) (cur' ++ c ∷ []) (has_other-append cur c o)) h
  ]

-- What was checked holds of the parts between slashes.
dotted-split_at : (s : Text) → dotted (segments s) ≡ false → dotted (split_at b'/' s) ≡ false
unfolding segments split_at
dotted-split_at s h = dotted_same s [] h

strip_slashes_lem :
    (s : Text)
    → (starts_with (codes "/") (strip_slashes s) ≡ false)
      × (strip_slashes (strip_slashes s) ≡ strip_slashes s)
unfolding strip_slashes starts_with
strip_slashes_lem [] = (refl, refl)
strip_slashes_lem (c ∷ s) = elim (Bool-cases (c == b'/')) [
  | inl e ↦ rw e (strip_slashes_lem s)
  | inr e ↦ rw e (ground arith, ground arith)
]

-- Where a path inside a repository or an artifact is accepted, it does not begin with a slash, a walk along
-- its parts never leaves the directory that it starts from, and the path is accepted again, unchanged.
pub sanitize_relative_path_safe :
    (file_path display_ref : Text) {cleaned : Text}
    → sanitize_relative_path file_path display_ref ≡ ok cleaned
    → (starts_with (codes "/") cleaned ≡ false)
      × ((depth : ℕ) × (walk 0 (split_at b'/' cleaned) ≡ some depth))
      × (sanitize_relative_path cleaned display_ref ≡ ok cleaned)
unfolding sanitize_relative_path
sanitize_relative_path_safe file_path display_ref {cleaned} h =
    elim (Bool-cases (dotted (segments (strip_slashes file_path)))) [
      | inl e ↦ cc (rw e at h)
      | inr e ↦
          let same_path : strip_slashes file_path ≡ cleaned = cc (rw e at h) in
          let (bare, again) = strip_slashes_lem file_path in
          rw (← same_path)
            (bare, walk_total _ 0 (dotted-split_at (strip_slashes file_path) e), rw again (rw e))
    ]

-- What is displayed in an error does not decide whether there is one.
pub sanitize_relative_path_at :
    (file_path d e : Text) {cleaned : Text}
    → sanitize_relative_path file_path d ≡ ok cleaned
    → sanitize_relative_path file_path e ≡ ok cleaned
unfolding sanitize_relative_path
sanitize_relative_path_at file_path d e h = ground arith
