-- ===== src/Exec/Preserves.antt =====
-- Actions that preserve an invariant of the world, whether they return or throw.
use dockerfile_x.Errors.{Error, Result}
use dockerfile_x.Exec.{
  Outcome, done, fails, out_of_fuel, Exec, pure, throw, lift, call, continue, ◌>>=◌,
}
use dockerfile_x.Exec.Closed.{IsClosed}

pub record Preserves {W A : Type 0} (I : W → Type 0) (m : Exec W A) : Type 0 where
  pub at : (w : W) → I w → I (m w).1

module _ {W : Type 0} (I : W → Type 0) where
  pub Preserves-throw : {A : Type 0} (e : Error) → Preserves I (throw {A = A} e)
  unfolding throw
  Preserves-throw e = record { at = λ w h. h }

  pub Preserves-call :
      {A : Type 0} (m : W → Result A × W) → ((w : W) → I w → I (m w).1) → Preserves I (call m)
  unfolding call
  Preserves-call m h = record { at = h }

  Preserves-pure : (A : Type 0) (a : A) → Preserves I (pure {W = W} a)
  unfolding pure
  Preserves-pure A a = record { at = λ w h. h }

  Preserves-lift : (A : Type 0) (r : Result A) → Preserves I (lift {W = W} r)
  unfolding lift
  Preserves-lift A r = record { at = λ w h. h }

  preserved_on :
      {A B : Type 0} (r : Outcome A) (f : A → Exec W B) (w : W)
      → I w
      → ((a : A) → Preserves I (f a))
      → I (continue r f w).1
  preserved_on (done a) f w h k = (k a).at w h
  preserved_on (fails e) f w h k = h
  preserved_on out_of_fuel f w h k = h

  Preserves-bind :
      (A B : Type 0) (m : Exec W A) (f : A → Exec W B)
      → Preserves I m
      → ((a : A) → Preserves I (f a))
      → Preserves I (m >>= f)
  unfolding ◌>>=◌
  Preserves-bind A B m f h k = record { at = λ w p. preserved_on (m w).0 f (m w).1 (h.at w p) k }

  pub Preserves-IsClosed : IsClosed (λ A m. Preserves I m)
  Preserves-IsClosed = record {
    closed_pure = Preserves-pure;
    closed_lift = Preserves-lift;
    closed_bind = Preserves-bind;
  }
