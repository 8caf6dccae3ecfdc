-- ===== src/Source/Oci/Pinned.antt =====
-- The digests that identify OCI sources.
use dockerfile_x.Spawn.{spawn_cmd}
use dockerfile_x.Common.{
  ◌≡◌, ◌⊎◌, refl, subst, true, ◌&&◌, Option, none, some, List, [], ◌∷◌, ◌++◌, Text, codes, All,
  Bool-cases, inl, inr, arith, is_some, same,
}
use dockerfile_x.Common.Cut.{cut}
use dockerfile_x.Common.Lookup.{find}
use dockerfile_x.Errors.{Result, ok, err}
use dockerfile_x.Io.{check_file_exists, Io}
use dockerfile_x.Io.Ensures.{
  Any, Returned-Any, Ensures, Returned, Ensures-returns, Ensures-throws, Ensures-of_result,
  Ensures-if, Ensures-attempt, Ensures-bind,
}
use dockerfile_x.PostProcess.{truthy}
use dockerfile_x.Source.Oci.{OciSource, oras_ref}
use dockerfile_x.Source.Oci.Digest.{
  Value, string, undefined, other, digest_match, has_length, assert_valid_digest,
}
use dockerfile_x.Source.Oci.Artifact.{if_valid, oras_with}
use dockerfile_x.Source.Oci.Fetch.{
  Host, Memo, OciState, outside, exists, update_memo, read_memo, first_config, find_config_dir,
  memo_config, with_config, resolve_docker_config_dir,
}
use dockerfile_x.Source.Oci.Read.{
  resolve_oci, resolve_unless, digest_or, descriptor_digest, with_digest, add_digest,
}
use dockerfile_x.Source.Oci.Registry.{run_oras, fallback, fetch_args}

-- A digest that the check admits.
pub IsDigest : Text → Type 0
IsDigest d = is_some (digest_match (b'@' ∷ d)) && has_length (cut b':' d) ≡ true

-- The digests that are remembered were all checked.
abbrev pub IsChecked : Memo → Type 0
IsChecked memo = All (λ (ref, d). IsDigest d) memo.digests

assert_valid_digest-IsDigest :
    (stringify : Text → Text) (d context : Text) {u : Unit {0}}
    → assert_valid_digest stringify (string d) context ≡ ok u
    → IsDigest d
unfolding assert_valid_digest IsDigest
assert_valid_digest-IsDigest stringify d context h = ground arith

module _ {W : Type 0} (host : Host W) where
  abbrev pub Keeps : {A : Type 0} → (A → Type 0) → Io (OciState host) A → Type 0
  Keeps = Ensures (λ s. IsChecked s.0)

  pub Keeps-outside : {A : Type 0} (m : Io W A) → Keeps Any (outside host m)
  unfolding outside
  Keeps-outside m = record { at = λ (memo, w) p. (p, Returned-Any _) }

  pub Keeps-exists : (path : Text) → Keeps Any (exists host path)
  unfolding exists
  Keeps-exists path = Keeps-outside (check_file_exists host.check_access path)

  Keeps-first_config : (dirs : List Text) → Keeps Any (first_config host dirs)
  unfolding first_config
  Keeps-first_config [] = Ensures-returns none tt
  Keeps-first_config (dir ∷ dirs) =
      Ensures-bind _ _ (Keeps-exists _)
        (λ found h. Ensures-if found _ _ (Ensures-returns (some dir) tt) (Keeps-first_config dirs))

  Keeps-find_config_dir : Keeps Any (find_config_dir host)
  unfolding find_config_dir
  Keeps-find_config_dir = Ensures-bind _ _ (Keeps-exists _) (λ secret h.
      Ensures-if secret _ _
        (Ensures-bind _ _ (Keeps-outside (host.make_temp_dir _)) (λ dir k.
          Ensures-bind _ _ (Keeps-outside (host.copy_file _ _))
            (λ u j. Ensures-returns (some dir) tt)))
        (Keeps-first_config _))

  Keeps-config : (dir : Option Text) → Keeps Any (update_memo host (with_config host dir))
  unfolding update_memo
  Keeps-config dir = record { at = λ (memo, w) p. (p, tt) }

  Keeps-memo_config : (o : Option (Option Text)) → Keeps Any (memo_config host o)
  unfolding memo_config
  Keeps-memo_config (some dir) = Ensures-returns dir tt
  Keeps-memo_config none =
      Ensures-bind _ _ Keeps-find_config_dir
        (λ dir h. Ensures-bind _ _ (Keeps-config dir) (λ u k. Ensures-returns dir tt))

  pub Keeps-read_memo : Keeps IsChecked (read_memo host)
  unfolding read_memo
  Keeps-read_memo = record { at = λ (memo, w) p. (p, p) }

  pub Keeps-config_dir : Keeps Any (resolve_docker_config_dir host)
  unfolding resolve_docker_config_dir
  Keeps-config_dir = Ensures-bind _ _ Keeps-read_memo (λ memo h. Keeps-memo_config memo.config_dir)

  pub Keeps-run_oras :
      (config : Option Text) (registry : Text) (command : List Text → List Text)
      → Keeps Any (run_oras (oras_with host config) host.plain_http_variable registry command)
  unfolding run_oras fallback
  Keeps-run_oras config registry command =
      Ensures-attempt _ _ (Keeps-outside (spawn_cmd host.child_process _ _ _)) (λ e.
        Ensures-if _ _ _ (Keeps-outside (spawn_cmd host.child_process _ _ _)) (Ensures-throws e))

  find-IsDigest :
      (k : Text) (l : List (Text × Text)) {d : Text}
      → All (λ (ref, x). IsDigest x) l
      → find k l ≡ some d
      → IsDigest d
  unfolding find
  find-IsDigest k [] p h = cc
  find-IsDigest k ((j, a) ∷ l) (q, p) h = elim (Bool-cases (same k j)) [
    | inl e ↦ subst IsDigest (some_inj (rw e at h)) q
    | inr e ↦ find-IsDigest k l p (rw e at h)
  ]
    where
      some_inj : {x y : Text} → some x ≡ some y → x ≡ y
      some_inj h = cc

  if_valid-Returned :
      (d : Text) (r : Result (Unit {0}))
      → ((u : Unit {0}) → r ≡ ok u → IsDigest d)
      → Returned IsDigest (if_valid host d r)
  if_valid-Returned d (ok u) h = h u refl
  if_valid-Returned d (err e) h = tt

  descriptor_digest-IsDigest :
      (ref : Text) (o : Option Value) → Returned IsDigest (descriptor_digest host ref o)
  unfolding descriptor_digest assert_valid_digest
  descriptor_digest-IsDigest ref none = tt
  descriptor_digest-IsDigest ref (some undefined) = tt
  descriptor_digest-IsDigest ref (some (other shown)) = tt
  descriptor_digest-IsDigest ref (some (string d)) =
      if_valid-Returned d
        (assert_valid_digest host.stringify (string d) (codes "oras manifest fetch " ++ ref))
        (λ u h.
          assert_valid_digest-IsDigest host.stringify d (codes "oras manifest fetch " ++ ref) h)

  Keeps-add_digest :
      (ref d : Text) → IsDigest d → Keeps Any (update_memo host (add_digest host ref d))
  unfolding update_memo
  Keeps-add_digest ref d q = record { at = λ (memo, w) p. ((q, p), tt) }

  Keeps-digest_or :
      (registry ref : Text) (o : Option Text)
      → ((d : Text) → o ≡ some d → IsDigest d)
      → Keeps IsDigest (digest_or host registry ref o)
  unfolding digest_or
  Keeps-digest_or registry ref (some d) h = Ensures-returns d (h d refl)
  Keeps-digest_or registry ref none h = Ensures-bind _ _ Keeps-config_dir (λ config a.
      Ensures-bind _ _ (Keeps-run_oras config registry (fetch_args ref)) (λ stdout b.
        Ensures-bind _ _
          (Ensures-of_result _ (descriptor_digest-IsDigest ref (host.parse_descriptor stdout)))
          (λ digest q.
            Ensures-bind _ _ (Keeps-add_digest ref digest q) (λ u c. Ensures-returns digest q))))

  -- A source with a digest that it had already, or one that was checked.
  pub IsPinned : OciSource → OciSource → Type 0
  IsPinned s s' =
      (d : Text) × (truthy s'.digest ≡ some d) × ((truthy s.digest ≡ some d) ⊎ IsDigest d)

  digest_not_empty : (d : Text) → IsDigest d → truthy (some d) ≡ some d
  unfolding IsDigest truthy digest_match
  digest_not_empty [] h = cc
  digest_not_empty (c ∷ d) h = refl

  Keeps-resolve_unless :
      (s : OciSource) (o : Option Text)
      → truthy s.digest ≡ o
      → Keeps (IsPinned s) (resolve_unless host s o)
  unfolding resolve_unless IsPinned
  Keeps-resolve_unless s (some d) e = Ensures-returns s (d, e, inl e)
  Keeps-resolve_unless s none e = Ensures-bind _ _ Keeps-read_memo (λ memo checked.
      Ensures-bind _ _
        (Keeps-digest_or s.registry (oras_ref s) (find (oras_ref s) memo.digests)
          (λ d h. find-IsDigest (oras_ref s) memo.digests checked h))
        (λ d q. Ensures-returns (with_digest host d s) (d, digest_not_empty d q, inr q)))

  -- Where all digests that are remembered were checked, `resolve` leaves it so, also if it throws; and a source
  -- that it returns has a digest, which it had before or which was checked.
  pub resolve_oci-IsPinned : (s : OciSource) → Keeps (IsPinned s) (resolve_oci host s)
  unfolding resolve_oci
  resolve_oci-IsPinned s = Keeps-resolve_unless s (truthy s.digest) refl
