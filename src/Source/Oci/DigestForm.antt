-- ===== src/Source/Oci/DigestForm.antt =====
-- What the check of digests admits.
use dockerfile_x.Common.{
  ◌≡◌, ◌↔◌, refl, ap, ◌∙◌, true, ◌&&◌, Option, none, some, [], ◌∷◌, ◌++◌, Text, all, is_some, arith,
  to_lower,
}
use dockerfile_x.Common.Cut.{cut, Lacks, cut-append, cut-whole}
use dockerfile_x.Errors.{ok}
use dockerfile_x.Source.Oci.Digest.{
  string, is_algo_unit, is_hex_unit, plus, is_pair, is_digest, digest_match, has_length,
  has_expected_length, assert_valid_digest,
}

-- `<algo>:<hex>`, with the length that is asked for the algorithm.
pub record HasForm (d : Text) : Type 0 where
  pub algo : Text
  pub hex : Text
  pub parts : d ≡ algo ++ b':' ∷ hex
  pub algo_units : plus is_algo_unit algo ≡ true
  pub hex_units : plus is_hex_unit hex ≡ true
  pub long : has_expected_length (to_lower algo) hex ≡ true

no_match : (s : Text) → Lacks b'@' s → digest_match s ≡ none
unfolding digest_match
no_match [] h = refl
no_match (c ∷ s) h = rw (no_match s (ground arith)) (ground arith)

-- Without an `@`, the whole text is the match.
match_whole : (d : Text) → Lacks b'@' d → is_some (digest_match (b'@' ∷ d)) ≡ is_digest d
unfolding digest_match
match_whole d h = rw (no_match d h) (ground arith)

algo_Lacks : (s : Text) → all is_algo_unit s ≡ true → Lacks b':' s
algo_Lacks [] h = refl
algo_Lacks (c ∷ s) h = ground (arith, algo_Lacks s)

plus-Lacks : (s : Text) → plus is_algo_unit s ≡ true → Lacks b':' s
plus-Lacks [] h = cc
plus-Lacks (c ∷ s) h = algo_Lacks (c ∷ s) h

form_of :
    (d : Text) (o : Option (Text × Text))
    → cut b':' d ≡ o
    → is_pair o && has_length o ≡ true
    → HasForm d
unfolding has_length
form_of d none e h = cc
form_of d (some (algo, hex)) e h = record {
  algo = algo;
  hex = hex;
  parts = cut-whole b':' d algo hex e;
  algo_units = ground arith;
  hex_units = ground arith;
  long = ground arith;
}

-- A digest without an `@` is admitted exactly if it is an algorithm, a colon and hexadecimal digits, as many
-- as the algorithm asks for.
pub assert_valid_digest-HasForm :
    (stringify : Text → Text) (d context : Text)
    → Lacks b'@' d
    → (assert_valid_digest stringify (string d) context ≡ ok tt) ↔ HasForm d
unfolding assert_valid_digest is_digest has_length
assert_valid_digest-HasForm stringify d context n = (
  λ h. form_of d (cut b':' d) refl (ground (arith, match_whole d n)),
  λ f.
      let e : cut b':' d ≡ some (f.algo, f.hex) =
        ap (cut b':') f.parts ∙ cut-append b':' f.algo f.hex (plus-Lacks f.algo f.algo_units) in
      let whole : is_digest d ≡ true = rw e (rw f.algo_units f.hex_units) in
      rw (match_whole d n, whole, e, f.long) refl,
)
