-- ===== src/Io/Ensures.antt =====
-- What an action ensures: it keeps an invariant of the state, also where it throws, and what it returns has a
-- property. One rule for each way to build an action.
use dockerfile_x.Common.{Bool, true, false, if◌then◌else◌}
use dockerfile_x.Errors.{Thrown, Result, ok, err}
use dockerfile_x.Io.{Io, returns, throws, of_result, attempt, rescue, resume, ◌>>=◌}

abbrev pub Returned : {A : Type 0} → (A → Type 0) → Result A → Type 0
Returned Q (ok a) = Q a
Returned Q (err e) = Unit

module _ {S : Type 0} (P : S → Type 0) where
  pub record Ensures {A : Type 0} (Q : A → Type 0) (m : Io S A) : Type 0 where
    pub at : (s : S) → P s → P (m s).1 × Returned Q (m s).0

module _ {S : Type 0} {P : S → Type 0} {A : Type 0} {Q : A → Type 0} where
  pub Ensures-returns : (a : A) → Q a → Ensures P Q (returns a)
  unfolding returns
  Ensures-returns a q = record { at = λ s p. (p, q) }

  pub Ensures-throws : (e : Thrown) → Ensures P Q (throws e)
  unfolding throws
  Ensures-throws e = record { at = λ s p. (p, tt) }

  pub Ensures-of_result : (r : Result A) → Returned Q r → Ensures P Q (of_result r)
  unfolding of_result
  Ensures-of_result r q = record { at = λ s p. (p, q) }

  pub Ensures-if :
      (b : Bool) (m n : Io S A) → Ensures P Q m → Ensures P Q n → Ensures P Q (if b then m else n)
  Ensures-if true m n hm hn = hm
  Ensures-if false m n hm hn = hn

  rescued :
      (r : Result A) (s : S) (handler : Thrown → Io S A)
      → P s × Returned Q r
      → ((e : Thrown) → Ensures P Q (handler e))
      → P (rescue handler (r, s)).1 × Returned Q (rescue handler (r, s)).0
  rescued (ok a) s handler h k = h
  rescued (err e) s handler h k = (k e).at s h.0

  pub Ensures-attempt :
      (m : Io S A) (handler : Thrown → Io S A)
      → Ensures P Q m
      → ((e : Thrown) → Ensures P Q (handler e))
      → Ensures P Q (attempt m handler)
  unfolding attempt
  Ensures-attempt m handler h k = record {
    at = λ s p. rescued (m s).0 (m s).1 handler (h.at s p) k;
  }

module _ {S : Type 0} {P : S → Type 0} {A B : Type 0} {Q : A → Type 0} {R : B → Type 0} where
  resumed :
      (r : Result A) (s : S) (f : A → Io S B)
      → P s × Returned Q r
      → ((a : A) → Q a → Ensures P R (f a))
      → P (resume f (r, s)).1 × Returned R (resume f (r, s)).0
  resumed (ok a) s f h k = (k a h.1).at s h.0
  resumed (err e) s f h k = (h.0, tt)

  pub Ensures-bind :
      (m : Io S A) (f : A → Io S B)
      → Ensures P Q m
      → ((a : A) → Q a → Ensures P R (f a))
      → Ensures P R (m >>= f)
  unfolding ◌>>=◌
  Ensures-bind m f h k = record { at = λ s p. resumed (m s).0 (m s).1 f (h.at s p) k }

-- Where nothing is asked of the results.
abbrev pub Any : {A : Type 0} → A → Type 0
Any a = Unit

pub Returned-Any : {A : Type 0} (r : Result A) → Returned Any r
Returned-Any (ok a) = tt
Returned-Any (err e) = tt

module _ {S : Type 0} {P : S → Type 0} {A : Type 0} where
  pub Ensures-returns-Any : (a : A) → Ensures P Any (returns a)
  Ensures-returns-Any a = Ensures-returns a tt

  pub Ensures-of_result-Any : (r : Result A) → Ensures P Any (of_result r)
  Ensures-of_result-Any r = Ensures-of_result r (Returned-Any r)

  pub Ensures-Any : {Q : A → Type 0} (m : Io S A) → Ensures P Q m → Ensures P Any m
  Ensures-Any m h = record { at = λ s p. ((h.at s p).0, Returned-Any (m s).0) }

module _ {S : Type 0} {P : S → Type 0} {A B : Type 0} {R : B → Type 0} where
  pub Ensures-bind-Any :
      (m : Io S A) (f : A → Io S B)
      → Ensures P Any m
      → ((a : A) → Ensures P R (f a))
      → Ensures P R (m >>= f)
  Ensures-bind-Any m f h k = Ensures-bind m f h (λ a _. k a)

pub ruleset ensure_rules = (
  Ensures-returns-Any, Ensures-throws, Ensures-of_result-Any, Ensures-if, Ensures-attempt,
  Ensures-bind-Any,
)
