-- ===== src/Load/Preserving.antt =====
-- An invariant that every `resolve` and every `read` preserves is preserved by the loader.
use dockerfile_x.Common.{ℕ, zero, suc, ◌+◌, Text}
use dockerfile_x.Exec.{call, cut_short}
use dockerfile_x.Exec.Closed.{IsClosed}
use dockerfile_x.Exec.Preserves.{Preserves, Preserves-throw, Preserves-IsClosed}
use dockerfile_x.Packages.{Packages}
use dockerfile_x.Source.{SourceApi}
use dockerfile_x.Processors.{Context}
use dockerfile_x.Load.{load_dockerfile, root_load_dockerfile, root_context}
use dockerfile_x.Load.Closed.{load_body_closed}

module _ (api : SourceApi) (I : SourceApi.World api → Type 0)
    (resolves : (s : SourceApi.Source api) → Preserves I (call (SourceApi.resolve api s)))
    (reads : (s : SourceApi.Source api) → Preserves I (call (SourceApi.read api s)))
    (p : Packages) where
  open api use {Source}

  load_dockerfile-Preserves :
      (fuel : ℕ) (s : Source) (c : Context) → Preserves I (load_dockerfile api p fuel s c)
  unfolding load_dockerfile cut_short
  load_dockerfile-Preserves zero s c = record { at = λ w h. h }
  load_dockerfile-Preserves (suc fuel) s c =
      load_body_closed api (λ A m. Preserves I m) (Preserves-IsClosed I) resolves reads p
        (load_dockerfile api p fuel) c s (λ _. Preserves-throw I _) (λ _ _ _. Preserves-throw I _)
        (λ k s' le fresh child target alias root. load_dockerfile-Preserves fuel child _)

  pub root_load_dockerfile-Preserves :
      (file_path docker_context : Text) (max : ℕ)
      → Preserves I (root_load_dockerfile api p file_path docker_context max)
  unfolding root_load_dockerfile
  root_load_dockerfile-Preserves file_path docker_context max =
      rules.closed_bind _ _ _ _ (rules.closed_lift _ _) (λ s.
        rules.closed_bind _ _ _ _
          (load_dockerfile-Preserves (max + 2) s (root_context api p docker_context max))
          (λ result. rules.closed_lift _ _))
    where
      rules : IsClosed (λ A m. Preserves I m)
      rules = Preserves-IsClosed I
