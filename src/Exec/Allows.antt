-- ===== src/Exec/Allows.antt =====
-- Which errors an action may throw, and whether it may run out of fuel: one rule for each way to build
-- an action.
use dockerfile_x.Common.{Bool, true, false, if◌then◌else◌}
use dockerfile_x.Errors.{Error, Thrown, thrown, Result, ok, err}
use dockerfile_x.Exec.{
  Outcome, done, fails, out_of_fuel, Exec, pure, throw, lift, call, outcome, continue, ◌>>=◌,
}

module _ (E : Error → Type 0) (Z : Type 0) where
  abbrev pub Allowed {ℓ} : {A : Type ℓ} → Outcome A → Type 0
  Allowed (done a) = Unit
  Allowed (fails e) = E e
  Allowed out_of_fuel = Z

  -- From any world, `m` throws only errors of `E`, and runs out of fuel only if `Z` holds.
  pub record Allows {ℓ κ} {W : Type κ} {A : Type ℓ} (m : Exec W A) : Type κ where
    pub at : (w : W) → Allowed (m w).0

  Allowed-outcome {ℓ} :
      {A : Type ℓ} (own : (e : Thrown) → E (thrown e)) (r : Result A) → Allowed (outcome r)
  Allowed-outcome own (ok a) = tt
  Allowed-outcome own (err e) = own e

module _ {ℓ κ} {W : Type κ} {A : Type ℓ} {E : Error → Type 0} {Z : Type 0} where
  pub Allows-pure : (a : A) → Allows E Z (pure {W = W} a)
  unfolding pure
  Allows-pure a = record { at = λ w. tt }

  pub Allows-throw : (e : Error) → E e → Allows E Z (throw {W = W} {A = A} e)
  unfolding throw
  Allows-throw e h = record { at = λ w. h }

  pub Allows-lift : (own : (e : Thrown) → E (thrown e)) (r : Result A) → Allows E Z (lift {W = W} r)
  unfolding lift
  Allows-lift own r = record { at = λ w. Allowed-outcome _ _ own r }

  pub Allows-call : (own : (e : Thrown) → E (thrown e)) (m : W → Result A × W) → Allows E Z (call m)
  unfolding call
  Allows-call own m = record { at = λ w. Allowed-outcome _ _ own (m w).0 }

  pub Allows-if :
      (b : Bool) (m n : Exec W A) → Allows E Z m → Allows E Z n → Allows E Z (if b then m else n)
  Allows-if true m n km kn = km
  Allows-if false m n km kn = kn

module _ {ℓ κ} {W : Type κ} {A B : Type ℓ} {E : Error → Type 0} {Z : Type 0} where
  Allowed-continue :
      (r : Outcome A) (f : A → Exec W B) (w : W)
      → Allowed E Z r
      → ((a : A) → Allows E Z (f a))
      → Allowed E Z (continue r f w).0
  Allowed-continue (done a) f w h k = (k a).at w
  Allowed-continue (fails e) f w h k = h
  Allowed-continue out_of_fuel f w h k = h

  pub Allows-bind :
      (m : Exec W A) (f : A → Exec W B)
      → Allows E Z m
      → ((a : A) → Allows E Z (f a))
      → Allows E Z (m >>= f)
  unfolding ◌>>=◌
  Allows-bind m f h k = record { at = λ w. Allowed-continue (m w).0 f (m w).1 (h.at w) k }

pub ruleset allow_rules = (Allows-pure, Allows-throw, Allows-lift, Allows-call, Allows-bind)
