-- ===== src/Names/Bounds.antt =====
-- The texts that `generateFilePathSlug` and `sanitizeStageName` return are stage names: their units and
-- their length, and that sanitizing is done after one time.
use dockerfile_x.Common.{
  ℕ, ◌≤◌, ◌≡◌, refl, true, false, inl, inr, [], ◌∷◌, ◌++◌, arith, Text, codes, ltb, le_of_not-ltb,
  Bool-cases, is_upper, length, length-append, length-take, take, all, All, All-append, All-take,
  lower_unit, to_lower,
}
use dockerfile_x.Packages.{Packages, IsHexDigest, is_hex}
use dockerfile_x.Names.{
  is_name_unit, filter_name, generate_file_path_slug, sanitize_stage_name, basename,
}

-- A unit of a stage name.
abbrev pub IsNameUnit : ℕ → Type 0
IsNameUnit c = is_name_unit c ≡ true

-- A unit of a sanitized stage name.
abbrev pub IsLowerUnit : ℕ → Type 0
IsLowerUnit c = (is_name_unit c ≡ true) × (is_upper c ≡ false)

IsLowerUnit-hex : (c : ℕ) → is_hex c ≡ true → IsLowerUnit c
IsLowerUnit-hex c h = ground arith

All-hex : (s : Text) → all is_hex s ≡ true → All IsLowerUnit s
All-hex [] h = tt
All-hex (c ∷ s) h = (IsLowerUnit-hex c (ground arith), All-hex s (ground arith))

All-name : (s : Text) → All IsLowerUnit s → All IsNameUnit s
All-name [] h = tt
All-name (c ∷ s) (h, hs) = (h.0, All-name s hs)

abbrev IsNotUpper : ℕ → Type 0
IsNotUpper c = is_upper c ≡ false

lower_unit-IsNotUpper : (c : ℕ) → All IsNotUpper (lower_unit c)
unfolding lower_unit
lower_unit-IsNotUpper c = ground arith

to_lower-IsNotUpper : (s : Text) → All IsNotUpper (to_lower s)
unfolding to_lower
to_lower-IsNotUpper [] = tt
to_lower-IsNotUpper (c ∷ s) =
    All-append IsNotUpper (lower_unit c) (to_lower s) (lower_unit-IsNotUpper c)
      (to_lower-IsNotUpper s)

module _ (sub : ℕ) where
  filter_name-IsNameUnit : (s : Text) → IsNameUnit sub → All IsNameUnit (filter_name sub s)
  unfolding filter_name
  filter_name-IsNameUnit [] h = tt
  filter_name-IsNameUnit (c ∷ s) h = (ground arith, filter_name-IsNameUnit s h)

  filter_name-IsLowerUnit :
      (s : Text) → IsLowerUnit sub → All IsNotUpper s → All IsLowerUnit (filter_name sub s)
  unfolding filter_name
  filter_name-IsLowerUnit [] h k = tt
  filter_name-IsLowerUnit (c ∷ s) h (k, ks) = (ground arith, filter_name-IsLowerUnit s h ks)

  filter_name_of_IsLowerUnit : (s : Text) → All IsLowerUnit s → filter_name sub s ≡ s
  unfolding filter_name
  filter_name_of_IsLowerUnit [] h = refl
  filter_name_of_IsLowerUnit (c ∷ s) (h, hs) = ground (arith, filter_name_of_IsLowerUnit s hs)

to_lower_of_IsLowerUnit : (s : Text) → All IsLowerUnit s → to_lower s ≡ s
unfolding to_lower lower_unit
to_lower_of_IsLowerUnit [] h = refl
to_lower_of_IsLowerUnit (c ∷ s) (h, hs) = ground (arith, to_lower_of_IsLowerUnit s hs)

module _ (p : Packages) where
  -- The slug of any path holds only letters, digits, `_` and `-`, and is six to twelve units long.
  generate_file_path_slug_bounds :
      (path : Text)
      → IsHexDigest 32 p.md5
      → All IsNameUnit (generate_file_path_slug p path)
        × (6 ≤ length (generate_file_path_slug p path))
        × (length (generate_file_path_slug p path) ≤ 12)
  unfolding generate_file_path_slug
  generate_file_path_slug_bounds path d =
      let name = filter_name b'-' (to_lower (basename path)) in
      let hash = p.md5 path in
      (
        All-append IsNameUnit (take 6 name) (take 6 hash)
            (All-take IsNameUnit 6 name
              (filter_name-IsNameUnit b'-' (to_lower (basename path)) refl))
            (All-take IsNameUnit 6 hash (All-name hash (All-hex hash (d.hex path)))),
        omega
            (arith, length-append (take 6 name) (take 6 hash), length-take 6 hash, d.size_of path),
        omega (
          arith,
          length-append (take 6 name) (take 6 hash),
          length-take 6 hash,
          length-take 6 name,
        ),
      )

  -- The name that `sanitize_stage_name` makes before it measures it.
  lowered-IsLowerUnit : (s : Text) → All IsLowerUnit (filter_name b'_' (to_lower s))
  lowered-IsLowerUnit s =
      filter_name-IsLowerUnit b'_' (to_lower s) (refl, refl) (to_lower-IsNotUpper s)

  sanitize_stage_name-IsLowerUnit :
      (s : Text) → IsHexDigest 64 p.sha256 → All IsLowerUnit (sanitize_stage_name p s)
  unfolding sanitize_stage_name
  sanitize_stage_name-IsLowerUnit s d = elim (Bool-cases (ltb 255 (length name))) [
    | inl e ↦ rw e (
        All-append IsLowerUnit (take 244 name) (codes "-" ++ take 10 hash)
          (All-take IsLowerUnit 244 name (lowered-IsLowerUnit s))
          ((refl, refl), All-take IsLowerUnit 10 hash (All-hex hash (d.hex name))))
    | inr e ↦ rw e (lowered-IsLowerUnit s)
  ]
    where
      name : Text
      name = filter_name b'_' (to_lower s)

      hash : Text
      hash = p.sha256 name

  length-sanitize_stage_name-le : (s : Text) → length (sanitize_stage_name p s) ≤ 255
  unfolding sanitize_stage_name
  length-sanitize_stage_name-le s = elim (Bool-cases (ltb 255 (length name))) [
    | inl e ↦ rw e (
        omega (
          arith,
          length-append (take 244 name) (b'-' ∷ take 10 hash),
          length-take 244 name,
          length-take 10 hash,
        ))
    | inr e ↦ rw e (le_of_not-ltb 255 (length name) e)
  ]
    where
      name : Text
      name = filter_name b'_' (to_lower s)

      hash : Text
      hash = p.sha256 name

  sanitize_stage_name_fixed :
      (s : Text) → All IsLowerUnit s → length s ≤ 255 → sanitize_stage_name p s ≡ s
  unfolding sanitize_stage_name
  sanitize_stage_name_fixed s h k =
      rw (to_lower_of_IsLowerUnit s h) (rw (filter_name_of_IsLowerUnit b'_' s h) (ground arith))

  -- A sanitized stage name holds only lower-case letters, digits, `_` and `-`, has at most 255 units,
  -- and sanitizing it again changes nothing.
  pub sanitize_stage_name_bounds :
      (s : Text)
      → IsHexDigest 64 p.sha256
      → All IsLowerUnit (sanitize_stage_name p s)
        × (length (sanitize_stage_name p s) ≤ 255)
        × (sanitize_stage_name p (sanitize_stage_name p s) ≡ sanitize_stage_name p s)
  sanitize_stage_name_bounds s d =
      let h = sanitize_stage_name-IsLowerUnit s d in
      let k = length-sanitize_stage_name-le s in
      (h, k, sanitize_stage_name_fixed (sanitize_stage_name p s) h k)
