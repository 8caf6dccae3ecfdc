-- ===== src/Source/Oci/Remembering.antt =====
-- The digests that are remembered stay checked while a source is read.
use dockerfile_x.Common.{◌++◌, Option, none, some, ◌∷◌, Text}
use dockerfile_x.Io.{of_result}
use dockerfile_x.Io.Ensures.{
  Any, Ensures-returns-Any, Ensures-throws, Ensures-if, Ensures-bind-Any, Ensures-of_result-Any,
  ensure_rules, Ensures-Any,
}
use dockerfile_x.Source.Contained.Keeping.{Ensures-assert_contained_real}
use dockerfile_x.Source.RelativePath.Keeping.{Ensures-try_with_extension}
use dockerfile_x.Path.{resolve_in}
use dockerfile_x.Source.Contained.{assert_contained}
use dockerfile_x.Source.Oci.Admitted.{real}
use dockerfile_x.Source.Oci.{OciSource, oci_key}
use dockerfile_x.Source.Oci.Artifact.{
  read_pulled_digest, best_effort, pull_into, move_into, populate, fetch_artifact, with_artifact,
  artifact_or, ensure_artifact,
}
use dockerfile_x.Source.Oci.Fetch.{Host, update_memo, Entry}
use dockerfile_x.Source.Oci.Pinned.{
  Keeps, Keeps-outside, Keeps-exists, Keeps-config_dir, Keeps-run_oras, Keeps-read_memo,
}
use dockerfile_x.Source.Oci.Read.{
  try_path, or_not_found, is_accessible, locate, resolve_file, read_oci,
}

module _ {W : Type 0} (host : Host W) where
  Keeps-read_pulled_digest : (dir : Text) → Keeps host Any (read_pulled_digest host dir)
  unfolding read_pulled_digest
  Keeps-read_pulled_digest dir = search (ensure_rules, Keeps-outside)

  Keeps-pull_into :
      (registry : Text) (config : Option Text) (dir ref : Text)
      → Keeps host Any (pull_into host registry config dir ref)
  unfolding pull_into best_effort
  Keeps-pull_into registry config dir ref =
      search (ensure_rules, Keeps-outside, Keeps-run_oras, Keeps-read_pulled_digest)

  Keeps-move_into : (temp_dir dir : Text) → Keeps host Any (move_into host temp_dir dir)
  unfolding move_into best_effort
  Keeps-move_into temp_dir dir = search (ensure_rules, Keeps-outside)

  Keeps-populate : (registry ref dir : Text) → Keeps host Any (populate host registry ref dir)
  unfolding populate
  Keeps-populate registry ref dir = Ensures-bind-Any _ _ (Keeps-outside host _) (λ _.
      Ensures-bind-Any _ _ (Keeps-outside host _) (λ _.
        Ensures-bind-Any _ _ (Keeps-config_dir host)
          (λ config. search (ensure_rules, Keeps-pull_into, Keeps-move_into))))

  Keeps-fetch_artifact : (registry ref : Text) → Keeps host Any (fetch_artifact host registry ref)
  unfolding fetch_artifact
  Keeps-fetch_artifact registry ref =
      search (ensure_rules, Keeps-outside, Keeps-exists, Keeps-read_pulled_digest, Keeps-populate)

  Keeps-with_artifact :
      (ref : Text) (entry : Entry)
      → Keeps host Any (update_memo host (with_artifact host ref entry))
  unfolding update_memo
  Keeps-with_artifact ref entry = record { at = λ (memo, w) p. (p, tt) }

  Keeps-artifact_or :
      (registry ref : Text) (o : Option Entry) → Keeps host Any (artifact_or host registry ref o)
  unfolding artifact_or
  Keeps-artifact_or registry ref (some entry) = Ensures-returns-Any entry
  Keeps-artifact_or registry ref none =
      search (ensure_rules, Keeps-fetch_artifact, Keeps-with_artifact)

  Keeps-ensure_artifact :
      (registry repo id : Text) → Keeps host Any (ensure_artifact host registry repo id)
  unfolding ensure_artifact
  Keeps-ensure_artifact registry repo id =
      Ensures-bind-Any _ _ (Ensures-Any _ (Keeps-read_memo host))
        (λ memo. Keeps-artifact_or registry (registry ++ b'/' ∷ (repo ++ id)) _)

  Keeps-is_accessible : (full : Text) → Keeps host Any (is_accessible host full)
  unfolding is_accessible
  Keeps-is_accessible full = search (ensure_rules, Keeps-outside)

  Keeps-try_path : (s : OciSource) (dir rel : Text) → Keeps host Any (try_path host s dir rel)
  unfolding try_path
  Keeps-try_path s dir rel =
      let full = resolve_in host.cwd dir rel in
      Ensures-bind-Any (of_result (assert_contained host.cwd dir full (oci_key s))) _
        (Ensures-of_result-Any _)
        (λ _. Ensures-bind-Any (is_accessible host full) _ (Keeps-is_accessible full) (λ accessible.
          Ensures-if accessible _ _
            (Ensures-bind-Any _ _
              (Ensures-assert_contained_real (real host)
                (λ path. Keeps-outside host (host.real_path path)) host.cwd dir full (oci_key s))
              (λ _. Ensures-returns-Any (some rel)))
            (Ensures-returns-Any none)))

  Keeps-or_not_found : (s : OciSource) (o : Option Text) → Keeps host Any (or_not_found host s o)
  unfolding or_not_found
  Keeps-or_not_found s none = Ensures-throws _
  Keeps-or_not_found s (some rel) = Ensures-returns-Any rel

  Keeps-resolve_file : (s : OciSource) → Keeps host Any (resolve_file host s)
  unfolding resolve_file locate
  Keeps-resolve_file s = search (
    ensure_rules, Keeps-ensure_artifact, Ensures-try_with_extension, Keeps-try_path,
    Keeps-or_not_found,
  )

  -- Reading a source leaves the digests that are remembered checked, also if it throws.
  pub read_oci-Keeps : (s : OciSource) → Keeps host Any (read_oci host s)
  unfolding read_oci
  read_oci-Keeps s = search (ensure_rules, Keeps-outside, Keeps-resolve_file)
