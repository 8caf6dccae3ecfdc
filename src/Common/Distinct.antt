-- ===== src/Common/Distinct.antt =====
-- Lists of texts in which none stands twice.
use mathlib.Core.Bool.{◌||◌}
use dockerfile_x.Common.{
  ◌≡◌, refl, false, List, [], ◌∷◌, ◌++◌, arith, Text, includes, same, same_iff,
}

abbrev pub IsDistinct : List Text → Type 0
IsDistinct [] = Unit
IsDistinct (k ∷ l) = (includes k l ≡ false) × IsDistinct l

pub includes-append :
    (j : Text) (l m : List Text) → includes j (l ++ m) ≡ (includes j l || includes j m)
unfolding includes
includes-append j [] m = refl
includes-append j (i ∷ l) m = ground (arith, includes-append j l m)

pub includes-concat :
    (j k : Text) (l : List Text) → includes j (l ++ k ∷ []) ≡ (includes j l || same j k)
unfolding includes
includes-concat j k [] = ground arith
includes-concat j k (i ∷ l) = ground (arith, includes-concat j k l)

pub IsDistinct-concat :
    (l : List Text) (k : Text) → IsDistinct l → includes k l ≡ false → IsDistinct (l ++ k ∷ [])
unfolding includes
IsDistinct-concat [] k d h = (refl, tt)
IsDistinct-concat (j ∷ l) k (fresh, d) h = (
  ground (arith, includes-concat j k l, same_iff j k, same_iff k j),
  IsDistinct-concat l k d (ground arith),
)

-- The converse, for a list that was built from the left.
pub IsDistinct-append_left : (l m : List Text) → IsDistinct (l ++ m) → IsDistinct l
IsDistinct-append_left [] m d = tt
IsDistinct-append_left (k ∷ l) m (h, d) =
    (ground (arith, includes-append k l m), IsDistinct-append_left l m d)

pub not-includes_of_IsDistinct :
    (l m : List Text) (k : Text) → IsDistinct (l ++ k ∷ m) → includes k l ≡ false
unfolding includes
not-includes_of_IsDistinct [] m k d = refl
not-includes_of_IsDistinct (j ∷ l) m k (h, d) = ground (
  arith,
  not-includes_of_IsDistinct l m k d,
  includes-append j l (k ∷ m),
  same_iff j k,
  same_iff k j,
)
