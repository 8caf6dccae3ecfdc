-- ===== src/ScopeStages/Reference.antt =====
-- What scoping by one stage name does to a COPY or ADD.
use dockerfile_x.Common.{
  ◌≡◌, refl, true, false, ◌||◌, none, some, List, [], ◌∷◌, ◌++◌, Text, codes, All, same, same_iff,
  same_refl, starts_with, Bool-cases, inl, inr,
}
use dockerfile_x.Errors.{Result, ok, ◌>>=◌}
use dockerfile_x.Packages.{Packages, array}
use dockerfile_x.Instruction.{Instruction, with_args}
use dockerfile_x.ScopeStages.{
  replace_arg, scoped_name, update_as, update_image, update_copy_args, update_copy, update_run,
  with_replaced, rescope,
}

abbrev pub from_argument : Text → Text
from_argument name = codes "--from=" ++ name

-- An argument that is no `--from`.
abbrev pub IsPlain : Text → Type 0
IsPlain a = starts_with (codes "--from=") a ≡ false

plain_differs : (a name : Text) → IsPlain a → same a (from_argument name) ≡ false
unfolding starts_with
plain_differs a name h = elim (Bool-cases (same a (from_argument name))) [
  | inl e ↦ cc (rw ((same_iff a (from_argument name)).0 e) at h)
  | inr e ↦ e
]

same-from_argument : (a b : Text) → same (from_argument a) (from_argument b) ≡ same a b
unfolding same
same-from_argument a b = refl

replace_arg-plain :
    (m new : Text) (r : List Text) → All IsPlain r → replace_arg (from_argument m) new r ≡ none
unfolding replace_arg
replace_arg-plain m new [] h = refl
replace_arg-plain m new (a ∷ r) (h, t) = rw (plain_differs a m h, replace_arg-plain m new r t) refl

pub replace_arg-other :
    (m x new : Text) (l r : List Text)
    → All IsPlain l
    → All IsPlain r
    → same x m ≡ false
    → replace_arg (from_argument m) new (l ++ from_argument x ∷ r) ≡ none
unfolding replace_arg
replace_arg-other m x new [] r hl hr d =
    rw (same-from_argument x m, d, replace_arg-plain m new r hr) refl
replace_arg-other m x new (a ∷ l) r (h, hl) hr d =
    rw (plain_differs a m h, replace_arg-other m x new l r hl hr d) refl

pub replace_arg-found :
    (x new : Text) (l r : List Text)
    → All IsPlain l
    → replace_arg (from_argument x) new (l ++ from_argument x ∷ r) ≡ some (l ++ new ∷ r)
unfolding replace_arg
replace_arg-found x new [] r hl = rw (same_refl (from_argument x)) refl
replace_arg-found x new (a ∷ l) r (h, hl) =
    rw (plain_differs a x h, replace_arg-found x new l r hl) refl

-- A COPY or ADD.
pub record IsCopy (c : Instruction) : Type 0 where
  pub not_from : same c.name (codes "FROM") ≡ false
  pub copies : (same c.name (codes "COPY") || same c.name (codes "ADD")) ≡ true
  pub not_run : same c.name (codes "RUN") ≡ false

module _ (p : Packages) (prefix m : Text) (c : Instruction) (h : IsCopy c) where
  as_kept : update_as p prefix m c ≡ ok c
  unfolding update_as
  as_kept = rw h.not_from refl

  image_kept : update_image p prefix m c ≡ ok c
  unfolding update_image
  image_kept = rw h.not_from refl

  run_kept : update_run p prefix m c ≡ ok c
  unfolding update_run
  run_kept = rw h.not_run refl

  rescope_copy : rescope p prefix m c ≡ (update_copy p prefix m c >>= update_run p prefix m)
  unfolding rescope
  rescope_copy = rw (as_kept, image_kept) refl

  update_copy-array :
      (args : List Text)
      → c.args ≡ array args
      → update_copy p prefix m c
        ≡ with_replaced p prefix m c
            (replace_arg (from_argument m) (from_argument (scoped_name p prefix m)) args)
  unfolding update_copy update_copy_args
  update_copy-array args a = rw (h.copies, a) refl

  pub rescope_other :
      (args : List Text)
      → c.args ≡ array args
      → replace_arg (from_argument m) (from_argument (scoped_name p prefix m)) args ≡ none
      → rescope p prefix m c ≡ ok c
  unfolding with_replaced
  rescope_other args a e = rw (rescope_copy, update_copy-array args a, e) run_kept

-- The COPY with other arguments.
abbrev redone : Packages → Instruction → List Text → Result Instruction
redone p c args = with_args p c (array args)

redone-IsCopy :
    (p : Packages) (c : Instruction) (args : List Text)
    → IsCopy c
    → (d : Instruction) × (redone p c args ≡ ok d) × IsCopy d × (d.args ≡ array args)
unfolding with_args
redone-IsCopy p c args h =
    (_, refl, record { not_from = h.not_from; copies = h.copies; not_run = h.not_run }, refl)

pub rescope_found :
    (p : Packages) (prefix m : Text) (c : Instruction) (args args' : List Text)
    → IsCopy c
    → c.args ≡ array args
    → replace_arg (from_argument m) (from_argument (scoped_name p prefix m)) args ≡ some args'
    → (d : Instruction) × (rescope p prefix m c ≡ ok d) × IsCopy d × (d.args ≡ array args')
unfolding with_replaced update_run redone-IsCopy
rescope_found p prefix m c args args' h a e =
    let (d, made, copy, is_array) = redone-IsCopy p c args' h in
    (
      d,
      rw (rescope_copy p prefix m c h, update_copy-array p prefix m c h args a, e, made)
          (run_kept p prefix m d copy),
      copy,
      is_array,
    )
