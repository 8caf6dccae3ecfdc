-- ===== src/Source/RelativePath/Keeping.antt =====
-- The two candidates of a path keep what each try keeps.
use dockerfile_x.Common.{Bool-cases, inl, inr, ◌++◌, Option, none, some, [], ◌∷◌, Text, same}
use dockerfile_x.Errors.{Result, ok, err}
use dockerfile_x.Io.{Io}
use dockerfile_x.Io.Ensures.{Any, Ensures, Returned}
use dockerfile_x.Names.{extname}
use dockerfile_x.Source.RelativePath.{try_with_extension, second_try}

module _ {S : Type 0} {P : S → Type 0} {A : Type 0} (try_fn : Text → Io S (Option A))
    (keeps : (path : Text) → Ensures P Any (try_fn path)) where
  second_try_kept :
      (path : Text) (extension : Option Text) (r : Result (Option A)) (s : S)
      → P s
      → P (second_try try_fn path extension (r, s)).1
        × Returned Any (second_try try_fn path extension (r, s)).0
  second_try_kept path extension (err e) s p = (p, tt)
  second_try_kept path extension (ok (some a)) s p = (p, tt)
  second_try_kept path none (ok none) s p = (p, tt)
  second_try_kept path (some []) (ok none) s p = (p, tt)
  second_try_kept path (some (c ∷ extension)) (ok none) s p =
      elim (Bool-cases (same (extname path) (c ∷ extension))) [
        | inl e ↦ rw e (p, tt)
        | inr e ↦ rw e ((keeps (path ++ c ∷ extension)).at s p)
      ]

  pub Ensures-try_with_extension :
      (path : Text) (extension : Option Text)
      → Ensures P Any (try_with_extension try_fn path extension)
  unfolding try_with_extension
  Ensures-try_with_extension path extension = record {
    at = λ s p.
        second_try_kept path extension (try_fn path s).0 (try_fn path s).1 ((keeps path).at s p).0;
  }
