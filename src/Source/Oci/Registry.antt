-- ===== src/Source/Oci/Registry.antt =====
-- src/sources/OciSource.js: how oras is run, and when it may talk plain HTTP. `spawn` runs oras with its
-- arguments.
use dockerfile_x.Common.{
  Bool, true, false, not, ◌&&◌, ◌||◌, Option, none, some, List, [], ◌∷◌, ◌++◌, map, Text, codes,
  ◌==◌, if◌then◌else◌, same, has_infix, take_while, fold_case,
}
use dockerfile_x.Errors.{Thrown, command_failed}
use dockerfile_x.Io.{Io, attempt, throws}

-- `registry.split(":")[0]`
unfoldable pub registry_host : Text → Text
unfolding take_while
registry_host registry = take_while (λ c. not (c == b':')) registry

-- `isLocalRegistry(registry)`
unfoldable pub is_local_registry : Text → Bool
unfolding registry_host same
is_local_registry registry =
    let host = registry_host registry in
    same host (codes "127.0.0.1") || same host (codes "localhost") || same host (codes "[::1]")

unfoldable pub is_forced : Option Text → Bool
unfolding same
is_forced none = false
is_forced (some value) = same value (codes "true")

-- `shouldUsePlainHttp(registry)` at the value of DOCKERFILEX_ORAS_PLAIN_HTTP
unfoldable pub should_use_plain_http : Option Text → Text → Bool
unfolding is_forced is_local_registry
should_use_plain_http variable registry =
    if is_forced variable then true else is_local_registry registry

-- `shouldAttemptPlainHttpFallback(registry)`
unfoldable pub should_attempt_plain_http_fallback : Option Text → Text → Bool
unfolding is_forced is_local_registry
should_attempt_plain_http_fallback variable registry =
    if is_forced variable then true else is_local_registry registry

-- `isPlainHttpMismatch(err)`
unfoldable pub is_plain_http_mismatch : Thrown → Bool
unfolding has_infix
is_plain_http_mismatch (command_failed stderr message) =
    has_infix (codes "server gave http response to https client") (map fold_case stderr)
is_plain_http_mismatch _ = false

abbrev pub plain_flag : List Text
plain_flag = codes "--plain-http" ∷ []

abbrev pub http_args : Bool → List Text
http_args plain_http = if plain_http then plain_flag else []

module _ {W : Type 0} (spawn : List Text → Io W Text) (variable : Option Text)
    (registry : Text) where
  -- The first run, and the second one over plain HTTP: `command` puts the flags among the arguments.
  unfoldable pub fallback : (List Text → List Text) → Bool → Thrown → Io W Text
  unfolding is_plain_http_mismatch should_attempt_plain_http_fallback throws
  fallback command plain_http e =
      if not plain_http
        && is_plain_http_mismatch e
        && should_attempt_plain_http_fallback variable registry
      then spawn (command plain_flag)
      else throws e

  -- `runOras(args)` and `tryRun(extra)`
  unfoldable pub run_oras : (List Text → List Text) → Io W Text
  unfolding fallback should_use_plain_http attempt
  run_oras command =
      let plain_http = should_use_plain_http variable registry in
      attempt (spawn (command (http_args plain_http))) (fallback command plain_http)

-- `[...args, ...httpArgs]` of a pull
abbrev pub pull_args : Text → Text → List Text → List Text
pull_args dir ref flags = codes "pull" ∷ codes "--output" ∷ dir ∷ ref ∷ flags

-- `buildArgs(extra)` of a resolution
abbrev pub fetch_args : Text → List Text → List Text
fetch_args ref extra = codes "manifest" ∷ codes "fetch" ∷ codes "--descriptor" ∷ (extra ++ ref ∷ [])
