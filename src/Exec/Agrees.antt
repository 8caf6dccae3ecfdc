-- ===== src/Exec/Agrees.antt =====
-- Two actions that do the same from every world, and what their results satisfy: one rule for each way to
-- build an action.
use dockerfile_x.Common.{◌≡◌, refl, ◌∙◌, ap, Bool, true, false, if◌then◌else◌}
use dockerfile_x.Errors.{Error, Result, ok, err}
use dockerfile_x.Exec.{
  Outcome, done, fails, out_of_fuel, Exec, pure, throw, lift, call, outcome, continue, ◌>>=◌,
}

-- A value that is returned satisfies `P`.
abbrev pub Returns {ℓ} : {A : Type ℓ} → (A → Type 0) → Outcome A → Type 0
Returns P (done a) = P a
Returns P (fails e) = Unit
Returns P out_of_fuel = Unit

abbrev pub Any {ℓ} : {A : Type ℓ} → A → Type 0
Any a = Unit

-- From any world `m` and `n` end alike, in the same world, and what they return satisfies `P`.
pub record Agrees {ℓ κ} {W : Type κ} {A : Type ℓ} (P : A → Type 0) (m n : Exec W A)
    : Type (ℓ ⊔ κ) where
  pub same : (w : W) → m w ≡ n w
  pub at : (w : W) → Returns P (m w).0

Returns-outcome {ℓ} :
    {A : Type ℓ} {P : A → Type 0} (r : Result A)
    → ((a : A) → r ≡ ok a → P a)
    → Returns P (outcome r)
Returns-outcome (ok a) h = h a refl
Returns-outcome (err e) h = tt

module _ {ℓ κ} {W : Type κ} {A : Type ℓ} {P : A → Type 0} where
  pub Agrees-pure : (a : A) → P a → Agrees P (pure {W = W} a) (pure a)
  unfolding pure
  Agrees-pure a h = record { same = λ w. refl; at = λ w. h }

  pub Agrees-throw : (e : Error) → Agrees P (throw {W = W} {A = A} e) (throw e)
  unfolding throw
  Agrees-throw e = record { same = λ w. refl; at = λ w. tt }

  pub Agrees-lift : (r : Result A) → ((a : A) → r ≡ ok a → P a) → Agrees P (lift {W = W} r) (lift r)
  unfolding lift
  Agrees-lift r h = record { same = λ w. refl; at = λ w. Returns-outcome r h }

  pub Agrees-call :
      (m n : W → Result A × W)
      → ((w : W) → m w ≡ n w)
      → ((w : W) (a : A) → (m w).0 ≡ ok a → P a)
      → Agrees P (call m) (call n)
  unfolding call
  Agrees-call m n e h = record {
    same = λ w. ap (λ r. (outcome r.0, r.1)) (e w);
    at = λ w. Returns-outcome (m w).0 (h w);
  }

  pub Agrees-if :
      (b : Bool) (m n m' n' : Exec W A)
      → Agrees P m m'
      → Agrees P n n'
      → Agrees P (if b then m else n) (if b then m' else n')
  Agrees-if true m n m' n' km kn = km
  Agrees-if false m n m' n' km kn = kn

module _ {ℓ κ} {W : Type κ} {A B : Type ℓ} {P : A → Type 0} {Q : B → Type 0} where
  continue-same :
      (r : Outcome A) (f g : A → Exec W B) (w : W)
      → Returns P r
      → ((a : A) → P a → Agrees Q (f a) (g a))
      → (continue r f w ≡ continue r g w) × Returns Q (continue r f w).0
  continue-same (done a) f g w h k = ((k a h).same w, (k a h).at w)
  continue-same (fails e) f g w h k = (refl, tt)
  continue-same out_of_fuel f g w h k = (refl, tt)

  pub Agrees-bind :
      (m n : Exec W A) (f g : A → Exec W B)
      → Agrees P m n
      → ((a : A) → P a → Agrees Q (f a) (g a))
      → Agrees Q (m >>= f) (n >>= g)
  unfolding ◌>>=◌
  Agrees-bind m n f g h k = record {
    same = λ w.
        (continue-same (m w).0 f g (m w).1 (h.at w) k).0 ∙ ap (λ r. continue r.0 g r.1) (h.same w);
    at = λ w. (continue-same (m w).0 f g (m w).1 (h.at w) k).1;
  }

-- The rules where nothing is asked of the results in between.
module _ {ℓ κ} {W : Type κ} {A : Type ℓ} where
  pub Agrees-pure-Any : (a : A) → Agrees Any (pure {W = W} a) (pure a)
  Agrees-pure-Any a = Agrees-pure a tt

  pub Agrees-lift-Any : (r : Result A) → Agrees Any (lift {W = W} r) (lift r)
  Agrees-lift-Any r = Agrees-lift r (λ _ _. tt)

module _ {ℓ κ} {W : Type κ} {A B : Type ℓ} {Q : B → Type 0} where
  pub Agrees-bind-Any :
      (m n : Exec W A) (f g : A → Exec W B)
      → Agrees Any m n
      → ((a : A) → Agrees Q (f a) (g a))
      → Agrees Q (m >>= f) (n >>= g)
  Agrees-bind-Any m n f g h k = Agrees-bind m n f g h (λ a _. k a)

pub ruleset agree_rules =
    (Agrees-pure-Any, Agrees-throw, Agrees-lift-Any, Agrees-bind-Any, Agrees-if)
