-- ===== src/Source/Contained.antt =====
-- src/sources/assertContained.js: the check that a path stays below a directory. `real_path` is
-- `fs.realpath`.
pub mod Below
pub mod Serving
pub mod Keeping
use dockerfile_x.Common.{
  Bool, not, ◌&&◌, ◌||◌, [], ◌∷◌, Text, codes, if◌then◌else◌, same, starts_with,
}
use dockerfile_x.Errors.{Thrown, Result, ok, err, path_traversal}
use dockerfile_x.Io.{Io, is_code, has_code, of_result, throws, attempt, returns, ◌>>=◌, ◌>>◌}
use dockerfile_x.Path.{is_absolute, relative}

-- `displayRef || child`
abbrev pub shown : Text → Text → Text
shown [] child = child
shown (c ∷ s) child = c ∷ s

-- `throwTraversal(displayRef, child)`
abbrev pub traversal : Text → Text → Thrown
traversal display_ref child = path_traversal (shown display_ref child)

-- `rel === "" || (!rel.startsWith("..") && !path.isAbsolute(rel))`
unfoldable pub is_contained : Text → Bool
unfolding same starts_with is_absolute
is_contained rel = same rel [] || not (starts_with (codes "..") rel) && not (is_absolute rel)

-- `assertContained(parent, child, displayRef)` in the working directory `cwd`
unfoldable pub assert_contained : Text → Text → Text → Text → Result (Unit {0})
unfolding is_contained relative
assert_contained cwd parent child display_ref =
    if is_contained (relative cwd parent child) then ok tt else err (traversal display_ref child)

module _ {W : Type 0} (real_path : Text → Io W Text) (cwd parent child display_ref : Text) where
  -- The check of a real path, with the path itself in the error.
  abbrev pub check_real : Text → Text → Result (Unit {0})
  unfolding is_contained relative
  check_real real_parent real_child =
      if is_contained (relative cwd real_parent real_child)
      then ok tt
      else err (traversal display_ref child)

  -- Behind the `try`: `real_child` is a path, or the error of `realpath`.
  abbrev pub check_resolved : Result Text → Io W (Unit {0})
  unfolding check_real assert_contained has_code ◌>>=◌
  check_resolved (ok real_child) = do
    real_parent ← real_path parent
    of_result (check_real real_parent real_child)
  check_resolved (err e) =
      if has_code (codes "ENOENT") e
      then of_result (assert_contained cwd parent child display_ref)
      else throws e

  -- `assertContainedReal(parent, child, displayRef)`
  unfoldable pub assert_contained_real : Io W (Unit {0})
  unfolding check_resolved
  assert_contained_real w = let (r, w') = real_path child w in check_resolved r w'
