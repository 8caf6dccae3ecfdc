-- ===== src/Io.antt =====
-- The `async` methods of the sources: an action on the world outside that returns or throws. What it
-- changed before it threw stays changed.
pub mod Ensures
use dockerfile_x.Common.{◌≡◌, refl, Bool, true, false, Option, none, some, Text, same}
use dockerfile_x.Errors.{Thrown, thrown, error_code, Result, ok, err}

abbrev pub Io {ℓ} : Type 0 → Type ℓ → Type ℓ
Io W A = W → Result A × W

-- `err.code === code`
abbrev pub is_code : Text → Option Text → Bool
unfolding same
is_code code none = false
is_code code (some c) = same c code

unfoldable pub has_code : Text → Thrown → Bool
unfolding error_code is_code
has_code code e = is_code code (error_code (thrown e))

module _ {ℓ} {W : Type 0} {A : Type ℓ} where
  unfoldable pub returns : A → Io W A
  returns a w = (ok a, w)

  unfoldable pub throws : Thrown → Io W A
  throws e w = (err e, w)

  unfoldable pub of_result : Result A → Io W A
  of_result r w = (r, w)

  abbrev pub rescue : (Thrown → Io W A) → Result A × W → Result A × W
  rescue handler (ok a, w) = (ok a, w)
  rescue handler (err e, w) = handler e w

  -- `try { return await m } catch (err) { handler }`
  unfoldable pub attempt : Io W A → (Thrown → Io W A) → Io W A
  attempt m handler w = rescue handler (m w)

module _ {ℓ κ} {W : Type 0} {A : Type ℓ} {B : Type κ} where
  abbrev pub resume : (A → Io W B) → Result A × W → Result B × W
  resume f (ok a, w) = f a w
  resume f (err e, w) = (err e, w)

  infixl 5 ◌>>=◌ ◌>>◌
  unfoldable pub ◌>>=◌ : Io W A → (A → Io W B) → Io W B
  ◌>>=◌ m f w = resume f (m w)

  abbrev pub ◌>>◌ : Io W A → Io W B → Io W B
  m >> n = m >>= λ _. n

  resume-ok :
      (f : A → Io W B) (r : Result A × W) {b : B} {w' : W}
      → resume f r ≡ (ok b, w')
      → (a : A) × (v : W) × (r ≡ (ok a, v)) × (f a v ≡ (ok b, w'))
  resume-ok f (ok a, w) h = (a, w, refl, h)
  resume-ok f (err e, w) h = cc

  -- Inversion of a bind that returned.
  pub >>=-ok :
      (m : Io W A) (f : A → Io W B) (w : W) {b : B} {w' : W}
      → (m >>= f) w ≡ (ok b, w')
      → (a : A) × (v : W) × (m w ≡ (ok a, v)) × (f a v ≡ (ok b, w'))
  unfolding ◌>>=◌
  >>=-ok m f w h = resume-ok f (m w) h

-- src/utils/checkFileExists.js, for `fs.promises.access`.
unfoldable pub check_file_exists : {W : Type 0} → (Text → Io W (Unit {0})) → Text → Io W Bool
unfolding ◌>>=◌ attempt returns
check_file_exists access file = attempt (do access file; returns true) (λ e. returns false)

-- src/utils/ensureDir.js, for `fs.promises.mkdir` and its option `recursive`.
abbrev pub ensure_dir : {W : Type 0} → (Text → Bool → Io W (Unit {0})) → Text → Io W (Unit {0})
ensure_dir mkdir dir = mkdir dir true
