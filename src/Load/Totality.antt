-- ===== src/Load/Totality.antt =====
-- The recursion over included files ends, whatever the files include: the guard on the depth bounds it.
use dockerfile_x.Common.{ℕ, zero, suc, ◌+◌, ◌≤◌, ◌≢◌, arith, Text}
use dockerfile_x.Errors.{Error}
use dockerfile_x.Exec.{Outcome, done, fails, out_of_fuel}
use dockerfile_x.Exec.Allows.{Allows, Allowed, Allows-lift, Allows-bind}
use dockerfile_x.Packages.{Packages}
use dockerfile_x.Source.{SourceApi}
use dockerfile_x.Processors.{Context}
use dockerfile_x.Load.{load_dockerfile, root_load_dockerfile, root_context}
use dockerfile_x.Load.Allowing.{load_body-Allows}

-- Any error, but no run that was cut short.
abbrev AnyError : Error → Type 0
AnyError e = Unit

ne-out_of_fuel : (r : Outcome Text) → Allowed AnyError ⊥ r → r ≢ out_of_fuel
ne-out_of_fuel (done a) h = cc
ne-out_of_fuel (fails e) h = cc
ne-out_of_fuel out_of_fuel h = absurd h

module _ (api : SourceApi) (p : Packages) where
  open api use {World, Source}

  load_dockerfile-Allows :
      (fuel : ℕ) (s : Source) (c : Context)
      → c.nesting_level ≤ c.max_include_depth + 1
      → c.max_include_depth + 2 ≤ fuel + c.nesting_level
      → Allows AnyError ⊥ (load_dockerfile api p fuel s c)
  unfolding load_dockerfile
  load_dockerfile-Allows zero s c near enough = absurd (omega arith)
  load_dockerfile-Allows (suc fuel) s c near enough =
      load_body-Allows AnyError ⊥ (λ e. tt) api p (load_dockerfile api p fuel) c s (λ _. tt)
        (λ _ _ _. tt)
        (λ k s' le fresh child target alias root.
          load_dockerfile-Allows fuel child _ (omega arith) (omega arith))

  -- The load of a file that is nested `nesting_level` deep is never cut short if the fuel is at least
  -- the number of levels from there to the first that the guard refuses, whatever the sources hold and
  -- include, in whatever world, cycles and failures included.
  load_dockerfile_total :
      (fuel : ℕ) (s : Source) (c : Context) (w : World)
      → c.nesting_level ≤ c.max_include_depth + 1
      → c.max_include_depth + 2 ≤ fuel + c.nesting_level
      → (load_dockerfile api p fuel s c w).0 ≢ out_of_fuel
  load_dockerfile_total fuel s c w near enough =
      ne-out_of_fuel _ ((load_dockerfile-Allows fuel s c near enough).at w)

  -- The fuel that `root_load_dockerfile` gives is enough: compiling a file returns a text or throws, for
  -- every path, context, depth limit and world.
  pub root_load_dockerfile_total :
      (file_path docker_context : Text) (max : ℕ) (w : World)
      → (root_load_dockerfile api p file_path docker_context max w).0 ≢ out_of_fuel
  unfolding root_load_dockerfile
  root_load_dockerfile_total file_path docker_context max w = ne-out_of_fuel _ (
      (Allows-bind _ _ (Allows-lift (λ e. tt) _) (λ s.
          Allows-bind _ _
            (load_dockerfile-Allows (max + 2) s (root_context api p docker_context max)
              (omega arith) (omega arith))
            (λ r. Allows-lift (λ e. tt) _))).at
        w)
