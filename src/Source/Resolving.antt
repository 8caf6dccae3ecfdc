-- ===== src/Source/Resolving.antt =====
-- Which references are resolved against the including source.
use dockerfile_x.Common.{◌≡◌, ◌≢◌, ◌⊎◌, true, Option, none, Text, arith}
use dockerfile_x.Source.{SourceApi, resolve_source}
use dockerfile_x.Source.Scheme.{local, detect_scheme, unknown_scheme}

module _ (api : SourceApi) where
  open api use {Source}

  -- A reference that begins with any `scheme:`, or with one of the remote prefixes, resolves to the same
  -- source or error from every parent, and from none: it never reaches a parent's `joinRelative`.
  resolve_source-ignores_parent :
      (reference : Text) (parent : Option Source) (docker_context : Text) (extension : Option Text)
      → (unknown_scheme reference ≡ true) ⊎ (detect_scheme reference ≢ local)
      → resolve_source api reference parent docker_context extension
        ≡ resolve_source api reference none docker_context extension
  unfolding resolve_source
  resolve_source-ignores_parent reference parent docker_context extension h = ground arith
