-- ===== src/Cli/Reports.antt =====
-- What is reported of an error.
use dockerfile_x.Common.{
  ◌≡◌, ◌↔◌, refl, subst, Bool, true, false, Option, none, some, List, [], ◌∷◌, Text, codes, same,
  arith, any,
}
use dockerfile_x.Errors.{
  Error, thrown, include_cycle, include_depth_exceeded, missing_file, remote_file_not_found,
  path_traversal, remote_fetch_failed, invalid_digest, system_error, command_failed, http_error,
  plain, type_error, error_code,
}
use dockerfile_x.Cli.Payload.{text, JsonObject, payload, payload_for, payload_of_code, with_error}

-- Whether an object has a key.
abbrev pub has_key : Text → JsonObject → Bool
unfolding same
has_key name = any (λ (k, v). same k name)

-- The error that names a file.
abbrev pub Misses : Error → Text → Type 0
Misses e filename = e ≡ thrown (missing_file filename)

-- The codes that are reported.
abbrev pub structured_codes : List Text
structured_codes =
    codes "include-cycle"
    ∷ codes "include-depth-exceeded"
    ∷ codes "missing-file"
    ∷ codes "remote-file-not-found"
    ∷ codes "path-traversal"
    ∷ codes "remote-fetch-failed"
    ∷ []

unfoldable pub is_structured : Text → Bool
unfolding same
is_structured code = any (same code) structured_codes

-- Errors of the system have no file name, and are reported at the six codes only.
system_payload :
    (code message : Text) (fields : JsonObject)
    → payload_of_code (thrown (system_error code message)) code ≡ some fields
    → (has_key (codes "filename") fields ≡ false) × (is_structured code ≡ true)
unfolding payload_of_code is_structured
system_payload code message fields h = ground arith

-- What is reported of an error: its code, which is one of the six, and the key `filename` for a missing
-- local file alone.
pub record IsReport (e : Error) (fields : JsonObject) : Type 0 where
  pub code : Text
  pub is_code : error_code e ≡ some code
  pub structured : is_structured code ≡ true
  pub first : (rest : JsonObject) × (fields ≡ (codes "error", text code) ∷ rest)
  pub filename_key :
      (has_key (codes "filename") fields ≡ true) ↔ ((filename : Text) × Misses e filename)

-- A report without a file name, of an error that names no file.
other-IsReport :
    (e : Error) (fields rest : JsonObject) (code : Text)
    → error_code e ≡ some code
    → is_structured code ≡ true
    → fields ≡ (codes "error", text code) ∷ rest
    → has_key (codes "filename") rest ≡ false
    → ((filename : Text) → Misses e filename → ⊥)
    → IsReport e fields
unfolding has_key
other-IsReport e fields rest code k s f n m = record {
  code = code;
  is_code = k;
  structured = s;
  first = (rest, f);
  filename_key = (
    λ h. let k : has_key (codes "filename") rest ≡ true = rw f at h in absurd (ground arith),
    λ (filename, h). absurd (m filename h),
  );
}

-- For what is reported, if anything is.
abbrev Checked : Error → Option JsonObject → Type 0
Checked e none = Unit
Checked e (some fields) = IsReport e fields

with_error-Checked :
    (code message : Text) (o : Option JsonObject)
    → payload_of_code (thrown (system_error code message)) code ≡ o
    → Checked (thrown (system_error code message)) (with_error code o)
unfolding error_code
with_error-Checked code message none h = tt
with_error-Checked code message (some fields) h =
    let (no_name, known) = system_payload code message fields h in
    other-IsReport _ _ fields code refl known refl no_name (λ f k. cc)

payload-Checked : (e : Error) → Checked e (payload e)
unfolding payload payload_for payload_of_code error_code is_structured
payload-Checked (include_cycle key chain) = other-IsReport _ _ _ _ refl refl refl refl (λ f k. cc)
payload-Checked (include_depth_exceeded depth max chain) =
    other-IsReport _ _ _ _ refl refl refl refl (λ f k. cc)
payload-Checked (thrown (missing_file filename)) = record {
  code = codes "missing-file";
  is_code = refl;
  structured = refl;
  first = (_, refl);
  filename_key = (λ h. (filename, refl), λ h. refl);
}
payload-Checked (thrown (remote_file_not_found ref)) =
    other-IsReport _ _ _ _ refl refl refl refl (λ f k. cc)
payload-Checked (thrown (path_traversal ref)) =
    other-IsReport _ _ _ _ refl refl refl refl (λ f k. cc)
payload-Checked (thrown (remote_fetch_failed url original message)) =
    other-IsReport _ _ _ _ refl refl refl (ground arith) (λ f k. cc)
payload-Checked (thrown (invalid_digest message)) =
    other-IsReport _ _ _ _ refl refl refl refl (λ f k. cc)
payload-Checked (thrown (system_error [] message)) = tt
payload-Checked (thrown (system_error (c ∷ code) message)) =
    with_error-Checked (c ∷ code) message _ refl
payload-Checked (thrown (command_failed stderr message)) = tt
payload-Checked (thrown (http_error status message)) = tt
payload-Checked (thrown (plain message)) = tt
payload-Checked (thrown type_error) = tt

-- Where an error is reported, the object begins with the code of the error, which is one of the six, and
-- it has the key `filename` exactly if the error is that of a missing local file.
pub payload-IsReport :
    (e : Error) (fields : JsonObject) → payload e ≡ some fields → IsReport e fields
payload-IsReport e fields h = subst (Checked e) h (payload-Checked e)
