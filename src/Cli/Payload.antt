-- ===== src/Cli/Payload.antt =====
-- The `switch` of src/cli/program.js over the code of an error, and the object that it gives to
-- src/errors/emitJsonError.js. A field of an error object that it has not is `none`.
use dockerfile_x.Common.{
  ℕ, ◌||◌, Option, none, some, List, [], ◌∷◌, ◌++◌, Text, codes, if◌then◌else◌, same,
}
use dockerfile_x.Errors.{
  Error, thrown, include_cycle, include_depth_exceeded, missing_file, remote_file_not_found,
  path_traversal, remote_fetch_failed, invalid_digest, system_error, error_code,
}
use dockerfile_x.PostProcess.{truthy}

-- The values of the payload.
pub data Json : Type 0 where
  text : Text → Json
  number : ℕ → Json
  texts : List Text → Json

abbrev pub JsonObject : Type 0
JsonObject = List (Text × Json)

abbrev pub field_depth : Error → Option ℕ
field_depth (include_depth_exceeded depth max chain) = some depth
field_depth (include_cycle key chain) = none
field_depth (thrown e) = none

abbrev pub field_max : Error → Option ℕ
field_max (include_depth_exceeded depth max chain) = some max
field_max (include_cycle key chain) = none
field_max (thrown e) = none

abbrev pub field_chain : Error → Option (List Text)
field_chain (include_depth_exceeded depth max chain) = some chain
field_chain (include_cycle key chain) = some chain
field_chain (thrown e) = none

abbrev pub field_filename : Error → Option Text
field_filename (thrown (missing_file filename)) = some filename
field_filename _ = none

abbrev pub field_ref : Error → Option Text
field_ref (thrown (remote_file_not_found ref)) = some ref
field_ref (thrown (path_traversal ref)) = some ref
field_ref _ = none

abbrev pub field_url : Error → Option Text
field_url (thrown (remote_fetch_failed url original message)) = some url
field_url _ = none

abbrev pub field_original_url : Error → Option Text
field_original_url (thrown (remote_fetch_failed url original message)) = some original
field_original_url _ = none

-- `err.message` of the errors that have the code of a failed fetch, or that are no errors of this program.
abbrev pub field_message : Error → Option Text
field_message (thrown (remote_fetch_failed url original message)) = some message
field_message (thrown (invalid_digest message)) = some message
field_message (thrown (system_error code message)) = some message
field_message _ = none

-- A key of an object, which `JSON.stringify` leaves out where its value is `undefined`.
abbrev pub key_of {ℓ} : {A : Type ℓ} → Text → (A → Json) → Option A → JsonObject
key_of name wrap none = []
key_of name wrap (some a) = (name, wrap a) ∷ []

-- `err.originalUrl && err.originalUrl !== err.url`
abbrev pub other_url : Option Text → Option Text → Option Text
unfolding same
other_url none url = none
other_url (some original) none = some original
other_url (some original) (some url) = if same original url then none else some original

unfoldable pub payload_of_code : Error → Text → Option JsonObject
unfolding same truthy
payload_of_code e code =
    if same code (codes "include-cycle") || same code (codes "include-depth-exceeded")
    then some (
        key_of (codes "depth") number (field_depth e)
        ++ (key_of (codes "max") number (field_max e)
            ++ key_of (codes "chain") texts (field_chain e)))
    else if same code (codes "missing-file")
    then some (key_of (codes "filename") text (field_filename e))
    else if same code (codes "remote-file-not-found") || same code (codes "path-traversal")
    then some (key_of (codes "ref") text (field_ref e))
    else if same code (codes "remote-fetch-failed")
    then some (
        key_of (codes "url") text (field_url e)
        ++ (key_of (codes "originalUrl") text
              (other_url (truthy (field_original_url e)) (field_url e))
            ++ key_of (codes "message") text (field_message e)))
    else none

abbrev pub with_error : Text → Option JsonObject → Option JsonObject
with_error code none = none
with_error code (some fields) = some ((codes "error", text code) ∷ fields)

unfoldable pub payload_for : Error → Option Text → Option JsonObject
unfolding payload_of_code
payload_for e none = none
payload_for e (some []) = none
payload_for e (some (c ∷ code)) = with_error (c ∷ code) (payload_of_code e (c ∷ code))

-- What is emitted for an error; `none` where it is thrown on.
unfoldable pub payload : Error → Option JsonObject
unfolding error_code payload_for
payload e = payload_for e (error_code e)
