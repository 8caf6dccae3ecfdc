-- ===== src/Source/Contained/Below.antt =====
-- What the check of containment admits, told by the parts of the two paths.
use dockerfile_x.Common.{
  ◌≡◌, ◌↔◌, refl, sym, ap, ◌∙◌, subst, Bool, true, false, not, List, [], ◌∷◌, ◌++◌, map, Text,
  codes, append-nil, All, same, join, starts_with, arith, Bool-cases, inl, inr, if◌then◌else◌,
}
use dockerfile_x.Errors.{Thrown, Result, ok, err}
use dockerfile_x.Io.{Io, has_code, throws, of_result, >>=-ok}
use dockerfile_x.Path.{is_absolute, resolved_parts, relative, diverge, climb}
use dockerfile_x.Path.Parts.{IsPart, resolved_parts-IsPart, diverge_lem, diverge-append}
use dockerfile_x.Source.Contained.{
  is_contained, assert_contained, assert_contained_real, check_resolved,
}

-- A way down from a directory that does not begin with two dots.
abbrev pub IsBelow : List Text → Type 0
IsBelow [] = Unit
IsBelow (s ∷ l) = starts_with (codes "..") s ≡ false

-- The parts of `child` are those of `parent` and a way down.
pub Inside : Text → Text → Text → Type 0
Inside cwd parent child =
    (rest : List Text) × (resolved_parts cwd child ≡ resolved_parts cwd parent ++ rest)
    × IsBelow rest

All-behind : (l m : List Text) → All IsPart (l ++ m) → All IsPart m
All-behind [] m h = h
All-behind (s ∷ l) m (p, h) = All-behind l m h

-- Behind its first part, a path does not change the test.
dots_of_join :
    (s : Text) (l : List Text)
    → IsPart s
    → is_contained (join (codes "/") (s ∷ l)) ≡ not (starts_with (codes "..") s)
unfolding is_contained join starts_with same is_absolute
dots_of_join [] l h = elim h [ ]
dots_of_join (c ∷ []) [] h = ground arith
dots_of_join (c ∷ []) (t ∷ l) h = ground arith
dots_of_join (c ∷ d ∷ s) [] h = ground arith
dots_of_join (c ∷ d ∷ s) (t ∷ l) h = ground arith

abbrev Passes : List Text → Type 0
Passes l = is_contained (join (codes "/") l) ≡ true

IsBelow-Passes : (l : List Text) → All IsPart l → IsBelow l → Passes l
unfolding is_contained join
IsBelow-Passes [] p h = refl
IsBelow-Passes (s ∷ l) (p, _) h = dots_of_join s l p ∙ rw h refl

Passes-IsBelow : (l : List Text) → All IsPart l → Passes l → IsBelow l
Passes-IsBelow [] p h = tt
Passes-IsBelow (s ∷ l) (p, _) h =
    let e : not (starts_with (codes "..") s) ≡ true = sym (dots_of_join s l p) ∙ h in ground arith

-- A path that begins by going up does not pass.
Passes-no_climb : (up down : List Text) → Passes (climb (up, down)) → (up ≡ []) × Passes down
unfolding is_contained
Passes-no_climb [] down h = (refl, h)
Passes-no_climb (s ∷ up) down h =
    cc (dots_of_join (codes "..") (map (λ _. codes "..") up ++ down) refl)

-- `is_contained` of a relative path is containment.
is_contained_iff :
    (cwd parent child : Text)
    → (is_contained (relative cwd parent child) ≡ true) ↔ Inside cwd parent child
unfolding relative Inside
is_contained_iff cwd parent child =
    let above = resolved_parts cwd parent in
    let below = resolved_parts cwd child in
    let parts : All IsPart below = resolved_parts-IsPart cwd child in
    let (front, from, to) = diverge_lem above below in
    (
      λ h.
          let (level, way) = Passes-no_climb (diverge above below).0 (diverge above below).1 h in
          let same_front : above ≡ front = from ∙ rw level (append-nil front) in
          let whole : below ≡ above ++ (diverge above below).1 =
            to ∙ ap (λ l. l ++ (diverge above below).1) (sym same_front) in
          (
            (diverge above below).1,
            whole,
            Passes-IsBelow _ (All-behind front _ (subst (All IsPart) to parts)) way,
          ),
      λ (rest, e, h).
          rw (e, diverge-append above rest)
            (IsBelow-Passes rest (All-behind above rest (subst (All IsPart) e parts)) h),
    )

-- A path is admitted exactly where its parts are those of the directory, then a way down whose first
-- part does not begin with two dots.
pub assert_contained-Inside :
    (cwd parent child display_ref : Text)
    → (assert_contained cwd parent child display_ref ≡ ok tt) ↔ Inside cwd parent child
unfolding assert_contained
assert_contained-Inside cwd parent child display_ref =
    let (to, from) = is_contained_iff cwd parent child in
    (λ h. to (ground arith), λ h. rw (from h) refl)

module _ {W : Type 0} (real_path : Text → Io W Text) (cwd parent child display_ref : Text) where
  -- What the check found out: the real path lies in the real directory, or there is no file yet.
  pub data IsAdmitted (w w' : W) : Type 0 where
    real_inside :
        (real_child real_parent : Text) (v : W)
        → real_path child w ≡ (ok real_child, v)
        → real_path parent v ≡ (ok real_parent, w')
        → Inside cwd real_parent real_child
        → IsAdmitted w w'
    absent :
        (e : Thrown)
        → real_path child w ≡ (err e, w')
        → has_code (codes "ENOENT") e ≡ true
        → Inside cwd parent child
        → IsAdmitted w w'

  -- A test that passed gives its condition, and leaves the world.
  passed :
      (b : Bool) (z : Thrown) (w w' : W) (u : Unit {0})
      → of_result (if b then ok tt else err z) w ≡ (ok u, w')
      → (b ≡ true) × (w ≡ w')
  unfolding of_result
  passed true z w w' u h = (refl, cc)
  passed false z w w' u h = cc

  check_resolved-IsAdmitted :
      (r : Result Text) (w v w' : W) (u : Unit {0})
      → real_path child w ≡ (r, v)
      → check_resolved real_path cwd parent child display_ref r v ≡ (ok u, w')
      → IsAdmitted w w'
  unfolding check_resolved assert_contained throws of_result
  check_resolved-IsAdmitted (ok real_child) w v w' u e h =
      let (real_parent, x, read, checked) = >>=-ok (real_path parent) _ v h in
      let (test, same_world) = passed _ _ x w' _ checked in
      real_inside real_child real_parent v e (rw (← same_world) read)
        ((is_contained_iff cwd real_parent real_child).0 test)
  check_resolved-IsAdmitted (err z) w v w' u e h = elim (Bool-cases (has_code (codes "ENOENT") z)) [
    | inl k ↦
        let (test, same_world) = passed _ _ v w' _ (rw k at h) in
        absent z (rw (← same_world) e) k ((is_contained_iff cwd parent child).0 test)
    | inr k ↦ cc (rw k at h)
  ]

  -- Where the check of real paths returns, the real path of the file lies in the real path of the directory,
  -- or `realpath` said that there is no such file and its path lies in the directory.
  pub assert_contained_real-IsAdmitted :
      (w w' : W)
      → assert_contained_real real_path cwd parent child display_ref w ≡ (ok tt, w')
      → IsAdmitted w w'
  unfolding assert_contained_real
  assert_contained_real-IsAdmitted w w' h =
      check_resolved-IsAdmitted (real_path child w).0 w (real_path child w).1 w' tt refl h
