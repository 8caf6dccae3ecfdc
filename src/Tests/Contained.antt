-- ===== src/Tests/Contained.antt =====
-- Paths inside a directory, and a link that leads out of it.
use dockerfile_x.Common.{◌≡◌, ◌↔◌, refl, [], Text, codes, same, if◌then◌else◌}
use dockerfile_x.Errors.{ok, err, path_traversal, system_error}
use dockerfile_x.Io.{Io, of_result}
use dockerfile_x.Source.Contained.{assert_contained, assert_contained_real}
use dockerfile_x.Source.Contained.Below.{
  Inside, IsAdmitted, assert_contained-Inside, assert_contained_real-IsAdmitted,
}

-- `/c/out` is a link to `/etc`, `/c/in` one to `/c/d`, and `/c` itself is `/real`.
unfoldable real_path : Text → Io (Unit {0}) Text
unfolding same
real_path path w =
    if same path (codes "/c/out")
    then (ok (codes "/etc"), w)
    else if same path (codes "/c/in")
    then (ok (codes "/real/d"), w)
    else if same path (codes "/c")
    then (ok (codes "/real"), w)
    else (err (system_error (codes "ENOENT") []), w)

assert_contained-Inside_example :
    (assert_contained (codes "/w") (codes "/c") (codes "/c/a/../b") [] ≡ ok tt)
    ↔ Inside (codes "/w") (codes "/c") (codes "/c/a/../b")
assert_contained-Inside_example =
    assert_contained-Inside (codes "/w") (codes "/c") (codes "/c/a/../b") []

inner_admitted :
    assert_contained_real real_path (codes "/w") (codes "/c") (codes "/c/in") [] tt ≡ (ok tt, tt)
unfolding assert_contained_real real_path of_result
inner_admitted = refl

assert_contained_real-IsAdmitted_example :
    IsAdmitted real_path (codes "/w") (codes "/c") (codes "/c/in") [] tt tt
assert_contained_real-IsAdmitted_example =
    assert_contained_real-IsAdmitted real_path (codes "/w") (codes "/c") (codes "/c/in") [] tt tt
      inner_admitted

-- A link that leads out is refused.
outer_refused :
    assert_contained_real real_path (codes "/w") (codes "/c") (codes "/c/out") [] tt
    ≡ (err (path_traversal (codes "/c/out")), tt)
unfolding assert_contained_real real_path of_result
outer_refused = refl

-- A file in the directory whose name begins with two dots is refused.
dotted_refused :
    assert_contained (codes "/w") (codes "/c") (codes "/c/..data/x") []
    ≡ err (path_traversal (codes "/c/..data/x"))
unfolding assert_contained
dotted_refused = refl
