-- ===== src/Source/Oci/Digest.antt =====
-- src/sources/OciSource.js: the digests of OCI, in references and from registries.
use dockerfile_x.Common.{
  ℕ, Bool, true, false, not, ◌&&◌, ◌||◌, Option, none, some, [], ◌∷◌, ◌++◌, Text, codes, ◌==◌, leb,
  all, length, if◌then◌else◌, is_digit, is_upper, is_lower, is_some, same, to_lower,
}
use dockerfile_x.Errors.{Result, ok, err, invalid_digest}
use dockerfile_x.Common.Cut.{cut, push_first}

-- `[a-zA-Z0-9_+.-]`
abbrev pub is_algo_unit : ℕ → Bool
is_algo_unit c =
    is_lower c || is_upper c || is_digit c || c == b'_' || c == b'+' || c == b'.' || c == b'-'

-- `[a-fA-F0-9]`
abbrev pub is_hex_unit : ℕ → Bool
is_hex_unit c = is_digit c || leb b'a' c && leb c b'f' || leb b'A' c && leb c b'F'

-- One unit or more, all of the class.
abbrev pub plus : (ℕ → Bool) → Text → Bool
plus f [] = false
plus f (c ∷ s) = f c && all f s

abbrev pub is_pair : Option (Text × Text) → Bool
is_pair none = false
is_pair (some (algo, hex)) = plus is_algo_unit algo && plus is_hex_unit hex

-- The whole of `[a-zA-Z0-9_+.-]+:[a-fA-F0-9]+`; a colon is of neither class.
unfoldable pub is_digest : Text → Bool
unfolding cut
is_digest s = is_pair (cut b':' s)

-- `s.match(DIGEST_RE)`: the text before the first `@` behind which a digest goes to the end, and the digest.
unfoldable pub digest_match : Text → Option (Text × Text)
unfolding is_digest
digest_match [] = none
digest_match (c ∷ s) =
    let later = push_first c (digest_match s) in
    if c == b'@' && is_digest s then some ([], s) else later

-- `expected !== undefined && hex.length !== expected`, the other way round. An object has the properties
-- `constructor` and `__proto__` too, which are no numbers.
unfoldable pub has_expected_length : Text → Text → Bool
unfolding same
has_expected_length algo hex =
    if same algo (codes "sha256")
    then length hex == 64
    else if same algo (codes "sha384")
    then length hex == 96
    else if same algo (codes "sha512")
    then length hex == 128
    else not (same algo (codes "constructor") || same algo (codes "__proto__"))

-- Behind the test of the form, where there is a colon.
unfoldable pub has_length : Option (Text × Text) → Bool
unfolding has_expected_length to_lower
has_length none = true
has_length (some (algo, hex)) = has_expected_length (to_lower algo) hex

abbrev pub fail_digest : Text → Text → Result (Unit {0})
fail_digest shown context =
    err (invalid_digest (codes "invalid OCI digest from " ++ (context ++ (codes ": " ++ shown))))

-- What stands for a digest in JSON: a string, nothing, or another value, with its text.
pub data Value : Type 0 where
  string : Text → Value
  undefined : Value
  other : Text → Value

-- `assertValidDigest(digest, context)`; `stringify` is `JSON.stringify` at a string.
unfoldable pub assert_valid_digest : (Text → Text) → Value → Text → Result (Unit {0})
unfolding digest_match has_length cut
assert_valid_digest stringify undefined context = fail_digest (codes "undefined") context
assert_valid_digest stringify (other shown) context = fail_digest shown context
assert_valid_digest stringify (string digest) context =
    if is_some (digest_match (b'@' ∷ digest)) && has_length (cut b':' digest)
    then ok tt
    else fail_digest (stringify digest) context
