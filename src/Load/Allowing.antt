-- ===== src/Load/Allowing.antt =====
-- The loader throws its own two errors where its guards say so, and else what a load of a child throws.
use dockerfile_x.Common.{◌+◌, ◌≤◌, ◌≡◌, true, false, Text, includes}
use dockerfile_x.Errors.{Error, Thrown, thrown, include_cycle_error, include_depth_exceeded}
use dockerfile_x.Exec.{Exec}
use dockerfile_x.Exec.Allows.{
  Allows, Allows-pure, Allows-throw, Allows-lift, Allows-call, Allows-bind,
}
use dockerfile_x.Exec.Closed.{IsClosed}
use dockerfile_x.Packages.{Packages}
use dockerfile_x.Source.{SourceApi}
use dockerfile_x.Processors.{Context}
use dockerfile_x.Load.{processing, load_body}
use dockerfile_x.Load.Closed.{Below, load_body_closed}

module _ (E : Error → Type 0) (Z : Type 0) (own : (e : Thrown) → E (thrown e)) where
  Allows-IsClosed : {W : Type 0} → IsClosed {W = W} (λ A m. Allows E Z m)
  Allows-IsClosed = record {
    closed_pure = λ A a. Allows-pure a;
    closed_lift = λ A r. Allows-lift own r;
    closed_bind = λ A B m f h k. Allows-bind m f h k;
  }

  module _ (api : SourceApi) (p : Packages)
      (load : SourceApi.Source api → Context → Exec (SourceApi.World api) Text) where
    open api use {World, Source}

    -- `load_body` is allowed where both of its errors are, and every load that it makes behind its guards.
    pub load_body-Allows :
        (c : Context) (s : Source)
        → (c.max_include_depth + 1 ≤ c.nesting_level
            → E (include_depth_exceeded c.nesting_level c.max_include_depth c.include_chain))
        → ((k : Text)
            → c.nesting_level ≤ c.max_include_depth
            → includes k c.include_chain ≡ true
            → E (include_cycle_error k c.include_chain))
        → ((k : Text) (s' : Source)
            → c.nesting_level ≤ c.max_include_depth
            → includes k c.include_chain ≡ false
            → Below api (λ A m. Allows E Z m) load (processing api p c k s'))
        → Allows E Z (load_body api p load s c)
    load_body-Allows c s deep cycle below =
        load_body_closed api (λ A m. Allows E Z m) Allows-IsClosed
          (λ s. Allows-call own (SourceApi.resolve api s))
          (λ s. Allows-call own (SourceApi.read api s)) p load c s (λ h. Allows-throw _ (deep h))
          (λ k le e. Allows-throw _ (cycle k le e)) below
