-- ===== src/Load/Guard.antt =====
-- The chain of include keys: it holds no key twice, it is as long as the nesting is deep, and the two
-- errors of the guards report it.
use dockerfile_x.Common.{
  ℕ, zero, suc, ◌+◌, ◌≤◌, ◌≡◌, refl, subst, true, List, [], ◌∷◌, ◌++◌, length, length-append, arith,
  Text, includes,
}
use dockerfile_x.Common.Distinct.{IsDistinct, IsDistinct-concat}
use dockerfile_x.Errors.{Error, thrown, include_cycle, include_depth_exceeded, include_cycle_error}
use dockerfile_x.Exec.{fails, cut_short}
use dockerfile_x.Exec.Allows.{Allows, Allowed, Allows-lift, Allows-bind}
use dockerfile_x.Packages.{Packages}
use dockerfile_x.Source.{SourceApi}
use dockerfile_x.Processors.{Context}
use dockerfile_x.Load.{load_dockerfile, root_load_dockerfile, root_context}
use dockerfile_x.Load.Allowing.{load_body-Allows}

-- What is reported with a limit of `max` levels: a cycle is a path of distinct keys, no longer than the
-- limit allows, that is closed by a key of the path; a chain that is too deep is one level past the limit.
abbrev pub IsReport : ℕ → Error → Type 0
IsReport max (include_cycle key chain) =
    (path : List Text) × (chain ≡ path ++ key ∷ [])
    × (includes key path ≡ true)
    × IsDistinct path
    × (length path ≤ max)
IsReport max (include_depth_exceeded depth limit chain) =
    (limit ≡ max) × (depth ≡ max + 1) × (length chain ≡ depth) × IsDistinct chain
IsReport max (thrown e) = Unit

-- The context of a load that the program makes.
pub record IsTracked (max : ℕ) (c : Context) : Type 0 where
  pub limit : c.max_include_depth ≡ max
  pub level : length c.include_chain ≡ c.nesting_level
  pub near : c.nesting_level ≤ max + 1
  pub distinct : IsDistinct c.include_chain

module _ (api : SourceApi) (p : Packages) where
  open api use {World, Source}

  load_dockerfile-Allows-IsReport :
      (max fuel : ℕ) (s : Source) (c : Context)
      → IsTracked max c
      → Allows (IsReport max) Unit (load_dockerfile api p fuel s c)
  unfolding load_dockerfile
  load_dockerfile-Allows-IsReport max zero s c t = record { at = λ w. unfold cut_short in tt }
  load_dockerfile-Allows-IsReport max (suc fuel) s c t =
      load_body-Allows (IsReport max) Unit (λ e. tt) api p (load_dockerfile api p fuel) c s
        (λ deep. (t.limit, omega arith, t.level, t.distinct))
        (λ k le seen.
          unfold include_cycle_error in (c.include_chain, refl, seen, t.distinct, omega arith))
        (λ k s' le fresh child target alias root.
          load_dockerfile-Allows-IsReport max fuel child _ (record {
            limit = t.limit;
            level = omega (arith, length-append c.include_chain (k ∷ []));
            near = omega arith;
            distinct = IsDistinct-concat c.include_chain k t.distinct fresh;
          }))

  -- Whatever the sources hold and include, and whatever the depth limit: if compiling a file ends with an
  -- include cycle, the chain reported is a path of distinct source keys, at most as many as the limit,
  -- closed by a key that is on the path; if it ends with the depth exceeded, the depth reported is one
  -- past the limit, the limit is the one given, and the chain has as many keys as the depth, all distinct.
  pub root_load_dockerfile-IsReport :
      (file_path docker_context : Text) (max : ℕ) (w : World) (e : Error)
      → (root_load_dockerfile api p file_path docker_context max w).0 ≡ fails e
      → IsReport max e
  unfolding root_load_dockerfile
  root_load_dockerfile-IsReport file_path docker_context max w e h =
      subst (Allowed (IsReport max) Unit) h (run.at w)
    where
      run : Allows (IsReport max) Unit (root_load_dockerfile api p file_path docker_context max)
      run = Allows-bind _ _ (Allows-lift (λ e. tt) _) (λ s.
          Allows-bind _ _
            (load_dockerfile-Allows-IsReport max (max + 2) s (root_context api p docker_context max)
              (record { limit = refl; level = refl; near = omega arith; distinct = tt }))
            (λ r. Allows-lift (λ e. tt) _))
