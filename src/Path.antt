-- ===== src/Path.antt =====
-- The functions of Node's `path` on POSIX that the sources and the command line call: `isAbsolute`,
-- `normalize`, `join`, `dirname`, `resolve` and `relative`.
pub mod Parts
use mathlib.Core.List.{reverse}
use dockerfile_x.Common.{
  ℕ, ◌≡◌, refl, Bool, true, false, not, ◌&&◌, ◌||◌, List, [], ◌∷◌, ◌++◌, map, Text, codes, ◌==◌,
  if◌then◌else◌, same, join, starts_with, ends_with, drop_while,
}
use dockerfile_x.Common.Split.{split_at}

-- `path.isAbsolute(p)`
unfoldable pub is_absolute : Text → Bool
unfolding starts_with
is_absolute = starts_with (codes "/")

-- What a part `..` does to the parts before it, the last of which stands in front.
abbrev pub step_up : Bool → List Text → List Text
unfolding same
step_up above [] = if above then codes ".." ∷ [] else []
step_up above (s ∷ l) =
    if same s (codes "..") then (if above then codes ".." ∷ s ∷ l else s ∷ l) else l

-- One part of a path.
abbrev pub one_step : Bool → Text → List Text → List Text
unfolding same step_up
one_step above [] l = l
one_step above (c ∷ s) l =
    if same (c ∷ s) (codes ".")
    then l
    else if same (c ∷ s) (codes "..")
    then step_up above l
    else (c ∷ s) ∷ l

-- The parts of a path without `.` and with `..` resolved; `..` is kept at the front if it may lead above.
unfoldable pub walk_parts : Bool → List Text → List Text → List Text
unfolding one_step
walk_parts above [] l = l
walk_parts above (s ∷ parts) l = walk_parts above parts (one_step above s l)

unfoldable pub normal_parts : Bool → Text → List Text
unfolding walk_parts split_at
normal_parts above path = reverse (walk_parts above (split_at b'/' path) [])

abbrev pub rebuild : Bool → Bool → Text → Text
rebuild true trailing [] = codes "/"
rebuild false true [] = codes "./"
rebuild false false [] = codes "."
rebuild absolute trailing (c ∷ s) =
    let tail = if trailing then c ∷ s ++ codes "/" else c ∷ s in
    if absolute then codes "/" ++ tail else tail

-- `path.normalize(p)`
unfoldable pub normalize : Text → Text
unfolding is_absolute normal_parts join ends_with
normalize [] = codes "."
normalize (c ∷ s) =
    let absolute = is_absolute (c ∷ s) in
    rebuild absolute (ends_with (codes "/") (c ∷ s))
      (join (codes "/") (normal_parts (not absolute) (c ∷ s)))

-- `path.join(a, b)`
unfoldable pub join_paths : Text → Text → Text
unfolding normalize
join_paths [] b = normalize b
join_paths (c ∷ a) [] = normalize (c ∷ a)
join_paths (c ∷ a) (d ∷ b) = normalize (c ∷ a ++ codes "/" ++ d ∷ b)

abbrev pub without_last : Bool → Text → Text
without_last rooted [] = if rooted then codes "/" else codes "."
without_last rooted (c ∷ []) = if rooted then codes "//" else c ∷ []
without_last rooted (c ∷ d ∷ s) = c ∷ d ∷ s

abbrev pub tail : Text → Text
tail [] = []
tail (c ∷ s) = s

-- `path.dirname(p)`
unfoldable pub dirname : Text → Text
unfolding is_absolute drop_while
dirname path = without_last (is_absolute path) (
    reverse (tail (drop_while (λ c. not (c == b'/')) (drop_while (λ c. c == b'/') (reverse path)))))

-- The parts of `path.resolve(p)`, for a working directory that is absolute.
unfoldable pub resolved_parts : Text → Text → List Text
unfolding is_absolute normal_parts
resolved_parts cwd path =
    if is_absolute path
    then normal_parts false path
    else normal_parts false (cwd ++ codes "/" ++ path)

-- `path.resolve(p)`
unfoldable pub resolve_path : Text → Text → Text
unfolding resolved_parts join
resolve_path cwd path = codes "/" ++ join (codes "/") (resolved_parts cwd path)

-- `path.resolve(dir, p)`
unfoldable pub resolve_in : Text → Text → Text → Text
unfolding is_absolute resolve_path
resolve_in cwd dir path =
    if is_absolute path then resolve_path cwd path else resolve_path cwd (dir ++ codes "/" ++ path)

-- What is left of two lists of parts behind those that they have in common.
unfoldable pub diverge : List Text → List Text → List Text × List Text
unfolding same
diverge [] l = ([], l)
diverge (s ∷ l) [] = (s ∷ l, [])
diverge (s ∷ l) (t ∷ m) = if same s t then diverge l m else (s ∷ l, t ∷ m)

abbrev pub climb : List Text × List Text → List Text
climb (up, down) = map (λ _. codes "..") up ++ down

-- `path.relative(from, to)`
unfoldable pub relative : Text → Text → Text → Text
unfolding diverge resolved_parts join
relative cwd from to =
    join (codes "/") (climb (diverge (resolved_parts cwd from) (resolved_parts cwd to)))

joined : join_paths (codes "/a/./b") (codes "../c/") ≡ codes "/a/c/"
unfolding join_paths
joined = refl

above : join_paths (codes "a") (codes "../../b") ≡ codes "../b"
unfolding join_paths
above = refl

related : relative (codes "/w") (codes "/a/b") (codes "/a/bc/d") ≡ codes "../bc/d"
unfolding relative
related = refl

parent : dirname (codes "/a//b/") ≡ codes "/a/"
unfolding dirname
parent = refl
