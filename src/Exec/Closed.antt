-- ===== src/Exec/Closed.antt =====
-- What holds of every action that is built from some: a property of actions that each way to build one keeps.
use dockerfile_x.Common.{Bool, true, false, if◌then◌else◌}
use dockerfile_x.Errors.{Result}
use dockerfile_x.Exec.{Exec, pure, lift, ◌>>=◌}

-- `C` holds of what returns or throws at once, and of a sequence where it holds of the parts.
pub record IsClosed {W : Type 0} (C : (A : Type 0) → Exec W A → Type 0) : Type 1 where
  pub closed_pure : (A : Type 0) (a : A) → C A (pure a)
  pub closed_lift : (A : Type 0) (r : Result A) → C A (lift r)
  pub closed_bind :
      (A B : Type 0) (m : Exec W A) (f : A → Exec W B)
      → C A m
      → ((a : A) → C B (f a))
      → C B (m >>= f)

pub closed_if :
    {W A : Type 0} (C : (A : Type 0) → Exec W A → Type 0) (b : Bool) (m n : Exec W A)
    → C A m
    → C A n
    → C A (if b then m else n)
closed_if C true m n km kn = km
closed_if C false m n km kn = kn
