-- ===== src/Source/RelativePath.antt =====
-- src/sources/sanitizeRelativePath.js and tryWithExtension.js.
pub mod Safe
pub mod Extension
pub mod Keeping
use dockerfile_x.Common.{
  ℕ, suc, zero, Bool, true, false, ◌||◌, Option, none, some, List, [], ◌∷◌, ◌++◌, Text, codes, ◌==◌,
  if◌then◌else◌, any, drop_while, same,
}
use dockerfile_x.Common.Split.{split, unit_length}
use dockerfile_x.Errors.{Result, ok, err, path_traversal}
use dockerfile_x.Names.{extname}

abbrev pub is_separator : ℕ → Bool
is_separator c = c == b'/' || c == b'\\'

-- `s.split(/[/\\]/)`
unfoldable pub segments : Text → List Text
unfolding split
segments = split (unit_length is_separator)

-- `filePath.replace(/^\/+/, "")`
unfoldable pub strip_slashes : Text → Text
unfolding drop_while
strip_slashes = drop_while (λ c. c == b'/')

unfoldable pub sanitize_relative_path : Text → Text → Result Text
unfolding segments strip_slashes same
sanitize_relative_path file_path display_ref =
    let cleaned = strip_slashes file_path in
    if any (same (codes "..")) (segments cleaned)
    then err (path_traversal display_ref)
    else ok cleaned

-- A candidate that is missed is `none`; any other value is a hit, an empty text too. `tryFn` reads and
-- changes the world, and may throw.
module _ {W A : Type 0} (try_fn : Text → W → Result (Option A) × W) where
  abbrev second_try : Text → Option Text → Result (Option A) × W → Result (Option A) × W
  second_try file_path extension (err e, w) = (err e, w)
  second_try file_path extension (ok (some a), w) = (ok (some a), w)
  second_try file_path none (ok none, w) = (ok none, w)
  second_try file_path (some []) (ok none, w) = (ok none, w)
  second_try file_path (some (c ∷ ext)) (ok none, w) =
      if same (extname file_path) (c ∷ ext) then (ok none, w) else try_fn (file_path ++ c ∷ ext) w

  unfoldable pub try_with_extension : Text → Option Text → W → Result (Option A) × W
  unfolding extname same
  try_with_extension file_path extension w = second_try file_path extension (try_fn file_path w)
