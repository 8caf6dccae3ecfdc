-- ===== src/Source/Oci/RoundTrip.antt =====
-- The display path of an OCI source is a reference to it.
use dockerfile_x.Common.{
  ℕ, ◌≡◌, refl, sym, ap, subst, ◌∙◌, false, ◌&&◌, Option, none, some, [], ◌∷◌, ◌++◌, Text, codes,
  ◌==◌, append_assoc, starts_with, strip_prefix_i, arith, Bool-cases, inl, inr,
}
use dockerfile_x.Common.Cut.{
  cut, push_first-some, Lacks, cut-append, cut-Lacks, cut-whole, cut_here, pair_at,
}
use dockerfile_x.Errors.{ok_inj, ok, >>=-eq-ok}
use dockerfile_x.PostProcess.{truthy}
use dockerfile_x.Source.RelativePath.{sanitize_relative_path}
use dockerfile_x.Source.RelativePath.Safe.{sanitize_relative_path_safe, sanitize_relative_path_at}
use dockerfile_x.Source.Oci.{
  OciSource, reject_option_like, reject_if, require_version, new_oci_at, new_oci, ident,
  given_ident, oci_reference, cut_last, last_here, with_tag, with_version, with_registry, with_path,
  without_oci, parse_oci_reference, oci_key, oras_ref,
}
use dockerfile_x.Source.Oci.Digest.{is_digest, digest_match}

last_here-whole :
    (c x : ℕ) (s : Text) (o : Option (Text × Text)) {a b : Text}
    → ((p q : Text) → o ≡ some (p, q) → s ≡ p ++ c ∷ q)
    → last_here c x s o ≡ some (a, b)
    → x ∷ s ≡ a ++ c ∷ b
last_here-whole c x s none whole h = elim (Bool-cases (x == c)) [
  | inl e ↦ cut_here x c s _ _ e (rw e at h)
  | inr e ↦ cc (rw e at h)
]
last_here-whole c x s (some (before, behind)) whole h =
    let (front, back) = pair_at (x ∷ before, behind) (_, _) h in
    rw (← front, ← back) (ap (◌∷◌ x) (whole before behind refl))

cut_last-whole : (c : ℕ) (s a b : Text) → cut_last c s ≡ some (a, b) → s ≡ a ++ c ∷ b
unfolding cut_last
cut_last-whole c [] a b h = cc
cut_last-whole c (x ∷ s) a b h = last_here-whole c x s (cut_last c s) (cut_last-whole c s) h

digest_match-whole : (s a b : Text) → digest_match s ≡ some (a, b) → s ≡ a ++ b'@' ∷ b
unfolding digest_match
digest_match-whole [] a b h = cc
digest_match-whole (x ∷ s) a b h = elim (Bool-cases (x == b'@' && is_digest s)) [
  | inl e ↦ cut_here x b'@' s a b (ground arith) (rw e at h)
  | inr e ↦
      let (rest, later, whole) = push_first-some x (digest_match s) (rw e at h) in
      rw whole (ap (◌∷◌ x) (digest_match-whole s rest b later))
]

not_option :
    (value kind : Text) {u : Unit {0}}
    → reject_option_like value kind ≡ ok u
    → starts_with (codes "-") value ≡ false
unfolding reject_option_like
not_option value kind h = ground arith

-- A source that was made: its fields, and that its path makes it again.
pub record IsMade (registry repo : Text) (tag digest extension : Option Text) (s : OciSource)
    : Type 0 where
  pub same_registry : s.registry ≡ registry
  pub same_repo : s.repo ≡ repo
  pub same_tag : s.tag ≡ tag
  pub same_digest : s.digest ≡ digest
  pub registry_plain : starts_with (codes "-") s.registry ≡ false
  pub again : new_oci_at registry repo tag digest s.file_path extension ≡ ok s

pub new_oci_at-IsMade :
    (registry repo : Text) (tag digest : Option Text) (file_path : Text) (extension : Option Text)
    {s : OciSource}
    → new_oci_at registry repo tag digest file_path extension ≡ ok s
    → IsMade registry repo tag digest extension s
unfolding new_oci_at
new_oci_at-IsMade registry repo tag digest file_path extension {s} h =
    let (u, h0, k0) = >>=-eq-ok (require_version registry repo tag digest) _ h in
    let (v, h1, k1) = >>=-eq-ok (reject_option_like registry (codes "registry")) _ k0 in
    let (x, h2, k2) = >>=-eq-ok (reject_option_like repo (codes "repo")) _ k1 in
    let (y, h3, k3) = >>=-eq-ok (reject_if tag (codes "tag")) _ k2 in
    let (z, h4, k4) = >>=-eq-ok (reject_if digest (codes "digest")) _ k3 in
    let (cleaned, h5, k5) = >>=-eq-ok (sanitize_relative_path file_path _) _ k4 in
    let again : sanitize_relative_path cleaned
          (oci_reference registry repo (given_ident tag digest) cleaned)
        ≡ ok cleaned =
      sanitize_relative_path_at cleaned _ _ (sanitize_relative_path_safe file_path _ h5).2 in
    subst (IsMade registry repo tag digest extension) (ok_inj k5) (record {
      same_registry = refl;
      same_repo = refl;
      same_tag = refl;
      same_digest = refl;
      registry_plain = not_option registry (codes "registry") h1;
      again = rw (h0, h1, h2, h3, h4, again) refl;
    })

-- A source of a version: the text of its repository and version, and that its path makes it again.
record IsVersioned (registry rest : Text) (extension : Option Text) (s : OciSource) : Type 0 where
  same_registry : s.registry ≡ registry
  version : s.repo ++ ident (truthy s.digest) s.tag ≡ rest
  registry_plain : starts_with (codes "-") s.registry ≡ false
  again :
      (reference : Text)
      → with_version reference s.registry rest (digest_match rest) s.file_path extension ≡ ok s

module _ (reference registry rest file_path : Text) (extension : Option Text) {s : OciSource} where
  tagged :
      (o : Option (Text × Text))
      → digest_match rest ≡ none
      → cut_last b':' rest ≡ o
      → with_tag reference registry o file_path extension ≡ ok s
      → IsVersioned registry rest extension s
  unfolding with_version with_tag new_oci new_oci_at truthy
  tagged none d e h = cc
  tagged (some (repo, [])) d e h = cc
  tagged (some (repo, c ∷ tag)) d e h =
      let m : IsMade registry repo (some (c ∷ tag)) none extension s =
        new_oci_at-IsMade registry repo (some (c ∷ tag)) none file_path extension h in
      record {
        same_registry = m.same_registry;
        version =
            rw (m.same_repo, m.same_digest, m.same_tag)
              (sym (cut_last-whole b':' rest repo (c ∷ tag) e));
        registry_plain = m.registry_plain;
        again = λ r.
            subst (λ x. with_version r x rest (digest_match rest) s.file_path extension ≡ ok s)
              (sym m.same_registry) (rw (d, e) m.again);
      }

  versioned :
      (o : Option (Text × Text))
      → digest_match rest ≡ o
      → with_version reference registry rest o file_path extension ≡ ok s
      → IsVersioned registry rest extension s
  unfolding with_version new_oci new_oci_at truthy
  versioned none e h = tagged (cut_last b':' rest) e refl h
  versioned (some ([], digest)) e h = cc
  versioned (some (c ∷ repo, [])) e h = cc
  versioned (some (c ∷ repo, d ∷ digest)) e h =
      let m : IsMade registry (c ∷ repo) none (some (d ∷ digest)) extension s =
        new_oci_at-IsMade registry (c ∷ repo) none (some (d ∷ digest)) file_path extension h in
      record {
        same_registry = m.same_registry;
        version =
            rw (m.same_repo, m.same_digest)
              (sym (digest_match-whole rest (c ∷ repo) (d ∷ digest) e));
        registry_plain = m.registry_plain;
        again = λ r.
            subst (λ x. with_version r x rest (digest_match rest) s.file_path extension ≡ ok s)
              (sym m.same_registry) (rw e m.again);
      }

-- What a reference is made of.
record IsParsed (extension : Option Text) (s : OciSource) : Type 0 where
  registry : Text
  rest : Text
  registry_Lacks : Lacks b'/' registry
  before_Lacks : Lacks b'#' (registry ++ b'/' ∷ rest)
  made : IsVersioned registry rest extension s

with_registry-IsParsed :
    (reference before file_path : Text) (o : Option (Text × Text)) (extension : Option Text)
    {s : OciSource}
    → Lacks b'#' before
    → cut b'/' before ≡ o
    → with_registry reference o file_path extension ≡ ok s
    → IsParsed extension s
unfolding with_registry
with_registry-IsParsed reference before file_path none extension n e h = cc
with_registry-IsParsed reference before file_path (some (registry, rest)) extension n e h = record {
  registry = registry;
  rest = rest;
  registry_Lacks = cut-Lacks b'/' before registry rest e;
  before_Lacks = subst (Lacks b'#') (cut-whole b'/' before registry rest e) n;
  made = versioned reference registry rest file_path extension (digest_match rest) refl h;
}

with_path-IsParsed :
    (reference stripped : Text) (o : Option (Text × Text)) (extension : Option Text) {s : OciSource}
    → cut b'#' stripped ≡ o
    → with_path reference o extension ≡ ok s
    → IsParsed extension s
unfolding with_path
with_path-IsParsed reference stripped none extension e h = cc
with_path-IsParsed reference stripped (some (before, file_path)) extension e h =
    with_registry-IsParsed reference before file_path (cut b'/' before) extension
      (cut-Lacks b'#' stripped before file_path e) refl h

parse-IsParsed :
    (reference : Text) (extension : Option Text) {s : OciSource}
    → parse_oci_reference reference extension ≡ ok s
    → IsParsed extension s
unfolding parse_oci_reference
parse-IsParsed reference extension h =
    let stripped = without_oci reference (strip_prefix_i (codes "oci://") reference) in
    with_path-IsParsed reference stripped (cut b'#' stripped) extension refl h

-- A reference that is put together from its parts.
parse-parts :
    (registry rest file_path : Text) (extension : Option Text)
    → Lacks b'/' registry
    → Lacks b'#' (registry ++ b'/' ∷ rest)
    → parse_oci_reference
        (codes "oci://" ++ ((registry ++ b'/' ∷ rest) ++ b'#' ∷ file_path))
        extension
      ≡ with_version
          (codes "oci://" ++ ((registry ++ b'/' ∷ rest) ++ b'#' ∷ file_path))
          registry
          rest
          (digest_match rest)
          file_path
          extension
unfolding parse_oci_reference with_path with_registry strip_prefix_i
parse-parts registry rest file_path extension n m =
    rw (cut-append b'#' (registry ++ b'/' ∷ rest) file_path m, cut-append b'/' registry rest n) refl

-- The key is the parts with a hash before the path.
oci_key-parts :
    (s : OciSource) (rest : Text)
    → s.repo ++ ident (truthy s.digest) s.tag ≡ rest
    → oci_key s ≡ codes "oci://" ++ ((s.registry ++ b'/' ∷ rest) ++ b'#' ∷ s.file_path)
unfolding oci_key
oci_key-parts s rest h =
    rw
      (
        ← h,
        append_assoc s.registry (b'/' ∷ (s.repo ++ ident (truthy s.digest) s.tag))
            (b'#' ∷ s.file_path),
        append_assoc s.repo (ident (truthy s.digest) s.tag) (b'#' ∷ s.file_path),
      )
      refl

plain_append :
    (s t : Text)
    → starts_with (codes "-") s ≡ false
    → starts_with (codes "-") (s ++ b'/' ∷ t) ≡ false
unfolding starts_with
plain_append [] t h = refl
plain_append (c ∷ s) t h = ground arith

-- An OCI reference that is accepted names a source whose key, which is also its display path, is a reference
-- to the same source; and the argument that oras is given for it does not begin with `-`.
pub parse_oci_reference-oci_key :
    (reference : Text) (extension : Option Text) (s : OciSource)
    → parse_oci_reference reference extension ≡ ok s
    → (parse_oci_reference (oci_key s) extension ≡ ok s)
      × (starts_with (codes "-") (oras_ref s) ≡ false)
unfolding oras_ref
parse_oci_reference-oci_key reference extension s h =
    let p = parse-IsParsed reference extension h in
    let m = p.made in
    let (bare, whole) =
      subst (λ x. Lacks b'/' x × Lacks b'#' (x ++ b'/' ∷ p.rest)) (sym m.same_registry)
        (p.registry_Lacks, p.before_Lacks) in
    let e = parse-parts s.registry p.rest s.file_path extension bare whole in
    (
      rw (oci_key-parts s p.rest m.version) (e ∙ m.again _),
      plain_append s.registry _ m.registry_plain,
    )
