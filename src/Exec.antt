-- ===== src/Exec.antt =====
-- The `async` code: an action reads and changes the world outside (files, network, caches) and may
-- throw. What it changed before it threw stays changed.
pub mod Allows
pub mod Agrees
pub mod Closed
pub mod Preserves
use dockerfile_x.Errors.{Error, Thrown, thrown, Result, ok, err}

-- `out_of_fuel` is no behaviour of the program: it marks a run of the model that was cut short.
pub data Outcome {ℓ} (A : Type ℓ) : Type ℓ where
  done : A → Outcome A
  fails : Error → Outcome A
  out_of_fuel : Outcome A

abbrev pub Exec {ℓ κ} : Type κ → Type ℓ → Type (ℓ ⊔ κ)
Exec W A = W → Outcome A × W

abbrev pub outcome {ℓ} : {A : Type ℓ} → Result A → Outcome A
outcome (ok a) = done a
outcome (err e) = fails (thrown e)

module _ {ℓ κ} {W : Type κ} {A : Type ℓ} where
  unfoldable pub pure : A → Exec W A
  pure a w = (done a, w)

  unfoldable pub throw : Error → Exec W A
  throw e w = (fails e, w)

  unfoldable pub cut_short : Exec W A
  cut_short w = (out_of_fuel, w)

  unfoldable pub lift : Result A → Exec W A
  lift r w = (outcome r, w)

  -- A call of a source: it returns or throws, and leaves another world.
  unfoldable pub call : (W → Result A × W) → Exec W A
  call m w = let (r, w') = m w in (outcome r, w')

module _ {ℓ κ} {W : Type κ} {A B : Type ℓ} where
  abbrev pub continue : Outcome A → (A → Exec W B) → Exec W B
  continue (done a) f w = f a w
  continue (fails e) f w = (fails e, w)
  continue out_of_fuel f w = (out_of_fuel, w)

  infixl 5 ◌>>=◌ ◌>>◌
  unfoldable pub ◌>>=◌ : Exec W A → (A → Exec W B) → Exec W B
  ◌>>=◌ m f w = let (r, w') = m w in continue r f w'

  abbrev pub ◌>>◌ : Exec W A → Exec W B → Exec W B
  m >> n = m >>= λ _. n
