-- ===== src/Sources/Remembered.antt =====
-- The identities of remote sources that the memos hold while a file is compiled.
use dockerfile_x.Common.{ℕ, Text}
use dockerfile_x.Exec.Preserves.{Preserves-call}
use dockerfile_x.Io.{Io}
use dockerfile_x.Packages.{Packages}
use dockerfile_x.Load.{root_load_dockerfile}
use dockerfile_x.Load.Preserving.{root_load_dockerfile-Preserves}
use dockerfile_x.Source.Git.Pinned.{AreOids, resolve_git-IsPinnedTo}
use dockerfile_x.Source.Git.Remembering.{read_git-KeepsOids}
use dockerfile_x.Source.Oci.Pinned.{IsChecked, resolve_oci-IsPinned}
use dockerfile_x.Source.Oci.Remembering.{read_oci-Keeps}
use dockerfile_x.Sources.{
  AnySource, of_local, of_http, of_git, of_oci, Platforms, Memos, sources, resolve_any, read_any,
}

module _ {W : Type 0} (platforms : Platforms W) (read_file : Text → Io W Text) where
  open platforms use {oci_host, git_host}

  -- All digests that are remembered for OCI references were checked, and all objects that are remembered for git
  -- references have full names.
  pub record AreIdentities (w : Memos platforms) : Type 0 where
    pub checked : IsChecked w.0
    pub named : AreOids w.1

  resolve_any-keeps :
      (s : AnySource) (w : Memos platforms)
      → AreIdentities w
      → AreIdentities (resolve_any platforms s w).1
  unfolding resolve_any
  resolve_any-keeps (of_local s) (memo, gits, w) h = record { checked = h.checked; named = h.named }
  resolve_any-keeps (of_http s) (memo, gits, w) h = record { checked = h.checked; named = h.named }
  resolve_any-keeps (of_git s) (memo, gits, w) h = record {
    checked = h.checked;
    named = ((resolve_git-IsPinnedTo git_host s).at (gits, w) h.named).0;
  }
  resolve_any-keeps (of_oci s) (memo, gits, w) h = record {
    checked = ((resolve_oci-IsPinned oci_host s).at (memo, w) h.checked).0;
    named = h.named;
  }

  read_any-keeps :
      (s : AnySource) (w : Memos platforms)
      → AreIdentities w
      → AreIdentities (read_any platforms read_file s w).1
  unfolding read_any
  read_any-keeps (of_local s) (memo, gits, w) h = record { checked = h.checked; named = h.named }
  read_any-keeps (of_http s) (memo, gits, w) h = record { checked = h.checked; named = h.named }
  read_any-keeps (of_git s) (memo, gits, w) h = record {
    checked = h.checked;
    named = ((read_git-KeepsOids git_host s).at (gits, w) h.named).0;
  }
  read_any-keeps (of_oci s) (memo, gits, w) h = record {
    checked = ((read_oci-Keeps oci_host s).at (memo, w) h.checked).0;
    named = h.named;
  }

  -- Where all digests that are remembered for OCI references were checked and all objects that are remembered for git
  -- references have full names, compiling a file leaves it so, whether it returns a text or throws, and whatever is
  -- included from wherever. The objects that are remembered with the clones, which come from `rev-parse` and are not
  -- tested, are not meant.
  pub root_load_dockerfile-AreIdentities :
      (p : Packages) (file_path context : Text) (max : ℕ) (w : Memos platforms)
      → AreIdentities w
      → AreIdentities
          (root_load_dockerfile (sources platforms read_file) p file_path context max w).1
  root_load_dockerfile-AreIdentities p file_path context max =
      (root_load_dockerfile-Preserves (sources platforms read_file) AreIdentities
        (λ s. Preserves-call AreIdentities _ (resolve_any-keeps s))
        (λ s. Preserves-call AreIdentities _ (read_any-keeps s)) p file_path context max).at
