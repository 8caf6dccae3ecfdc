-- ===== src/Source/Local/Found.antt =====
-- The file that a local source reads.
use dockerfile_x.Common.{
  ◌≡◌, refl, sym, ap, ◌∙◌, Option, none, some, Text, codes, Bool-cases, inl, inr,
}
use dockerfile_x.Errors.{Thrown, Result, ok, err}
use dockerfile_x.Io.{Io, returns, throws, attempt, rescue, has_code, ◌>>=◌, >>=-ok}
use dockerfile_x.Source.RelativePath.{try_with_extension}
use dockerfile_x.Source.RelativePath.Extension.{try_with_extension-Hits}
use dockerfile_x.Source.Local.{
  LocalSource, local_key, or_absent, try_file, with_path_found, or_missing_file, read_local,
}

module _ {W : Type 0} (read_file : Text → Io W Text) (cwd : Text) where
  abbrev read_some : Text → Io W (Option (Text × Text))
  read_some candidate = read_file candidate >>= λ content. returns (some (content, candidate))

  read_some-some :
      (candidate : Text) (v w' : W) (found : Text × Text)
      → read_some candidate v ≡ (ok (some found), w')
      → (found.1 ≡ candidate) × (read_file candidate v ≡ (ok found.0, w'))
  unfolding returns
  read_some-some candidate v w' found h =
      let (content, x, h0, k0) = >>=-ok (read_file candidate) _ v h in (cc, h0 ∙ cc)

  or_absent-none :
      (e : Thrown) (v w' : W) (found : Text × Text)
      → or_absent read_file cwd e v ≡ (ok (some found), w')
      → ⊥
  unfolding or_absent returns throws
  or_absent-none e v w' found h = elim (Bool-cases (has_code (codes "ENOENT") e)) [
    | inl k ↦ cc (rw k at h)
    | inr k ↦ cc (rw k at h)
  ]

  rescued_file :
      (candidate : Text) (r : Result (Option (Text × Text))) (v x w' : W) (found : Text × Text)
      → read_some candidate v ≡ (r, x)
      → rescue (or_absent read_file cwd) (r, x) ≡ (ok (some found), w')
      → (found.1 ≡ candidate) × (read_file candidate v ≡ (ok found.0, w'))
  rescued_file candidate (ok o) v x w' found h k = read_some-some candidate v w' found (h ∙ k)
  rescued_file candidate (err e) v x w' found h k = absurd (or_absent-none e x w' found k)

  try_file-some :
      (candidate : Text) (v w' : W) (found : Text × Text)
      → try_file read_file cwd candidate v ≡ (ok (some found), w')
      → (found.1 ≡ candidate) × (read_file candidate v ≡ (ok found.0, w'))
  unfolding try_file attempt
  try_file-some candidate v w' found h =
      rescued_file candidate (read_some candidate v).0 v (read_some candidate v).1 w' found refl h

  -- The source behind a read: its path on disk is that of the file that was read, and its key is unchanged.
  pub record IsRead (s s' : LocalSource) (content : Text) (w' : W) : Type 0 where
    pub path : Text
    pub before : W
    pub reads : read_file path before ≡ (ok content, w')
    pub resolved : s'.resolved_abs_path ≡ some path
    pub same_key : local_key s' ≡ local_key s

  read_parts :
      (text content : Text) (s t : LocalSource) (x w' : W)
      → returns {W = W} {A = Text × LocalSource} (text, s) x ≡ (ok (content, t), w')
      → (text ≡ content) × (s ≡ t) × (x ≡ w')
  unfolding returns
  read_parts text content s t x w' h = (cc, cc, cc)

  or_missing_file-IsRead :
      (s s' : LocalSource) (o : Option (Text × Text)) (content : Text) (x w' : W)
      → ((found : Text × Text)
          → o ≡ some found
          → (candidate : Text) × (v : W) × (found.1 ≡ candidate)
            × (read_file candidate v ≡ (ok found.0, x)))
      → or_missing_file read_file cwd s o x ≡ (ok (content, s'), w')
      → IsRead s s' content w'
  unfolding or_missing_file throws local_key
  or_missing_file-IsRead s s' none content x w' h k = cc
  or_missing_file-IsRead s s' (some (text, path)) content x w' h k =
      let (candidate, v, same_path, read) = h (text, path) refl in
      let (same_text, same_source, same_world) =
        read_parts text content (with_path_found read_file cwd path s) s' x w' k in
      record {
        path = candidate;
        before = v;
        reads = read ∙ ap (λ t. (ok t, x)) same_text ∙ ap (λ y. (ok content, y)) same_world;
        resolved = sym (ap (λ t. t.resolved_abs_path) same_source) ∙ ap some same_path;
        same_key = ap local_key (sym same_source);
      }

  -- Where a local source is read, its content is that of the file whose path the source has from then on, and its key
  -- is the same as before.
  pub read_local-IsRead :
      (s s' : LocalSource) (content : Text) (w w' : W)
      → read_local read_file cwd s w ≡ (ok (content, s'), w')
      → IsRead s s' content w'
  unfolding read_local
  read_local-IsRead s s' content w w' h =
      let (o, x, h0, k0) =
        >>=-ok (try_with_extension (try_file read_file cwd) s.abs_path (some s.default_extension)) _
          w h in
      or_missing_file-IsRead s s' o content x w'
        (λ found e.
          let (candidate, v, tried) =
            try_with_extension-Hits (try_file read_file cwd) s.abs_path (some s.default_extension) w
              x found (h0 ∙ ap (λ y. (ok y, x)) e) in
          let (same_path, read) = try_file-some candidate v x found tried in
          (candidate, v, same_path, read))
        k0
