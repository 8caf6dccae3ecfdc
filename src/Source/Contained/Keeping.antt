-- ===== src/Source/Contained/Keeping.antt =====
-- The check of real paths keeps what the calls of `realpath` keep.
use dockerfile_x.Common.{Text}
use dockerfile_x.Errors.{Result, ok, err}
use dockerfile_x.Io.{Io}
use dockerfile_x.Io.Ensures.{
  Any, Ensures, Ensures-throws, Ensures-if, Ensures-bind-Any, Ensures-of_result-Any,
}
use dockerfile_x.Source.Contained.{assert_contained_real, check_resolved}

module _ {S : Type 0} {P : S → Type 0} (real_path : Text → Io S Text)
    (keeps : (path : Text) → Ensures P Any (real_path path))
    (cwd parent child display_ref : Text) where
  Ensures-check_resolved :
      (r : Result Text) → Ensures P Any (check_resolved real_path cwd parent child display_ref r)
  unfolding check_resolved
  Ensures-check_resolved (ok real_child) =
      Ensures-bind-Any _ _ (keeps parent) (λ real_parent. Ensures-of_result-Any _)
  Ensures-check_resolved (err e) = Ensures-if _ _ _ (Ensures-of_result-Any _) (Ensures-throws e)

  pub Ensures-assert_contained_real :
      Ensures P Any (assert_contained_real real_path cwd parent child display_ref)
  unfolding assert_contained_real
  Ensures-assert_contained_real = record {
    at = λ s p.
        (Ensures-check_resolved (real_path child s).0).at (real_path child s).1
          ((keeps child).at s p).0;
  }
