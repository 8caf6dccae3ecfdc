-- ===== src/Errors.antt =====
-- src/errors: the error classes with the fields that a catcher reads, their codes and messages, and
-- the results of code that may throw. Nothing reads the `cause` of an error.
use dockerfile_x.Common.{
  ℕ, Bool, true, false, if◌then◌else◌, ◌≡◌, refl, Option, none, some, List, [], ◌∷◌, ◌++◌, Text,
  codes,
}

-- What the sources and the passes throw. `plain` is an `Error` with a message and no code, and
-- `type_error` stands for a `TypeError` of the runtime.
pub data Thrown : Type 0 where
  missing_file : Text → Thrown
  remote_file_not_found : Text → Thrown
  path_traversal : Text → Thrown
  remote_fetch_failed : Text → Text → Text → Thrown
  -- A digest that is not valid has the code of a failed fetch, and none of its other fields.
  invalid_digest : Text → Thrown
  -- An error of the system with its code and message.
  system_error : Text → Text → Thrown
  -- A process that failed, with what it wrote to its standard error. Its code is the number that it ended
  -- with, or that of the system: no code that is asked for.
  command_failed : Text → Text → Thrown
  -- An answer of a server that is no success, with its status. Its code is one of `axios`, which nothing asks
  -- for.
  http_error : ℕ → Text → Thrown
  plain : Text → Thrown
  type_error : Thrown

-- What `loadDockerfile` throws: its own two errors, and those of the code that it calls.
pub data Error : Type 0 where
  include_cycle : Text → List Text → Error
  include_depth_exceeded : ℕ → ℕ → List Text → Error
  thrown : Thrown → Error

-- `new IncludeCycleError(sourceKey, chain)`: the field `chain` is the full chain.
unfoldable pub include_cycle_error : Text → List Text → Error
include_cycle_error source_key chain = include_cycle source_key (chain ++ source_key ∷ [])

-- `err.code`, where `none` is `undefined`
unfoldable pub error_code : Error → Option Text
error_code (include_cycle key chain) = some (codes "include-cycle")
error_code (include_depth_exceeded depth max chain) = some (codes "include-depth-exceeded")
error_code (thrown (missing_file filename)) = some (codes "missing-file")
error_code (thrown (remote_file_not_found ref)) = some (codes "remote-file-not-found")
error_code (thrown (path_traversal ref)) = some (codes "path-traversal")
error_code (thrown (remote_fetch_failed url original message)) = some (codes "remote-fetch-failed")
error_code (thrown (invalid_digest message)) = some (codes "remote-fetch-failed")
error_code (thrown (system_error code message)) = some code
error_code (thrown (command_failed stderr message)) = none
error_code (thrown (http_error status message)) = none
error_code (thrown (plain message)) = none
error_code (thrown type_error) = none

-- The result of code that reads and writes nothing outside.
pub data Result {ℓ} (A : Type ℓ) : Type ℓ where
  ok : A → Result A
  err : Thrown → Result A

infixl 5 ◌>>=◌ ◌>>◌
abbrev pub ◌>>=◌ {ℓ κ} : {A : Type ℓ} {B : Type κ} → Result A → (A → Result B) → Result B
ok a >>= f = f a
err e >>= f = err e

abbrev pub ◌>>◌ {ℓ κ} : {A : Type ℓ} {B : Type κ} → Result A → Result B → Result B
r >> s = r >>= λ _. s

-- Inversion of a bind that returned.
pub >>=-eq-ok {ℓ κ} :
    {A : Type ℓ} {B : Type κ} (r : Result A) (f : A → Result B) {b : B}
    → (r >>= f) ≡ ok b
    → (a : A) × (r ≡ ok a) × (f a ≡ ok b)
>>=-eq-ok (ok a) f h = (a, refl, h)
>>=-eq-ok (err e) f h = cc

-- What an `ok` carries.
pub ok_inj : {A : Type 0} {a b : A} → ok a ≡ ok b → a ≡ b
ok_inj h = cc

-- A guard that did not throw.
pub passed :
    {A : Type 0} (b : Bool) (e : Thrown) {r : Result A} {a : A}
    → (if b then err e else r) ≡ ok a
    → r ≡ ok a
passed true e h = cc
passed false e h = h
