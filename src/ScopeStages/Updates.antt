-- ===== src/ScopeStages/Updates.antt =====
-- The updates of one instruction keep its keyword and its line number.
use dockerfile_x.Common.{
  ◌≡◌, refl, ◌∙◌, Bool, true, false, Option, none, some, List, Text, if◌then◌else◌,
}
use dockerfile_x.Errors.{Thrown, Result, ok, err, ◌>>=◌}
use dockerfile_x.Packages.{Packages, Args, string, array, object}
use dockerfile_x.Instruction.{Instruction, with_args, generate_raw_instruction}
use dockerfile_x.ScopeStages.{
  update_as_args, update_image_args, update_copy_args, update_run_args, with_image, with_replaced,
  with_mount, update_as, update_image, update_copy, update_run, rescope,
}

-- The keyword and the line number of an instruction stay.
abbrev pub IsKept : Instruction → Instruction → Type 0
IsKept i j = (j.name ≡ i.name) × (j.lineno ≡ i.lineno)

unfoldable pub Keeps : Instruction → Result Instruction → Type 0
Keeps i (ok j) = IsKept i j
Keeps i (err e) = Unit

Keeps-if :
    (i : Instruction) (c : Bool) (a b : Result Instruction)
    → Keeps i a
    → Keeps i b
    → Keeps i (if c then a else b)
Keeps-if i true a b ha hb = ha
Keeps-if i false a b ha hb = hb

pub Keeps-with_args : (p : Packages) (i : Instruction) (a : Args) → Keeps i (with_args p i a)
unfolding with_args Keeps
Keeps-with_args p i a = go (generate_raw_instruction p i.name a i.raw)
  where
    go :
        (r : Result Text)
        → Keeps i (elim r [ ok raw ↦ ok (record i { args = a; raw = raw }) | err e ↦ err e ])
    go (ok raw) = (refl, refl)
    go (err e) = tt

Keeps-bind :
    (i : Instruction) (r : Result Instruction) (f : Instruction → Result Instruction)
    → Keeps i r
    → ((j : Instruction) → Keeps j (f j))
    → Keeps i (r >>= f)
unfolding Keeps
Keeps-bind i (err e) f hr hf = tt
Keeps-bind i (ok j) f hr hf = go (f j) (hf j)
  where
    go : (r : Result Instruction) → Keeps j r → Keeps i r
    go (ok k) (n, l) = (n ∙ hr.0, l ∙ hr.1)
    go (err e) _ = tt

pub Keeps-ok : (i : Instruction) → Keeps i (ok i)
unfolding Keeps
Keeps-ok i = (refl, refl)

Keeps-err : (i : Instruction) (e : Thrown) → Keeps i (err e)
unfolding Keeps
Keeps-err i e = tt

ruleset keep_rules = (Keeps-if, Keeps-with_args, Keeps-ok, Keeps-err)

module _ (p : Packages) (prefix name : Text) where
  Keeps-update_as_args : (i : Instruction) (a : Args) → Keeps i (update_as_args p prefix name i a)
  unfolding update_as_args
  Keeps-update_as_args i (string s) = search keep_rules
  Keeps-update_as_args i (array l) = search keep_rules
  Keeps-update_as_args i object = search keep_rules

  Keeps-update_as : (i : Instruction) → Keeps i (update_as p prefix name i)
  unfolding update_as
  Keeps-update_as i = search (keep_rules, Keeps-update_as_args)

  Keeps-with_image : (i : Instruction) (o : Option Text) → Keeps i (with_image p prefix name i o)
  unfolding with_image
  Keeps-with_image i none = search keep_rules
  Keeps-with_image i (some alias) = search keep_rules

  Keeps-update_image_args :
      (i : Instruction) (a : Args) → Keeps i (update_image_args p prefix name i a)
  unfolding update_image_args
  Keeps-update_image_args i (string s) = search (keep_rules, Keeps-with_image)
  Keeps-update_image_args i (array l) = search keep_rules
  Keeps-update_image_args i object = search keep_rules

  Keeps-update_image : (i : Instruction) → Keeps i (update_image p prefix name i)
  unfolding update_image
  Keeps-update_image i = search (keep_rules, Keeps-update_image_args)

  Keeps-with_replaced :
      (i : Instruction) (o : Option (List Text)) → Keeps i (with_replaced p prefix name i o)
  unfolding with_replaced
  Keeps-with_replaced i none = search keep_rules
  Keeps-with_replaced i (some args) = search keep_rules

  Keeps-update_copy_args :
      (i : Instruction) (a : Args) → Keeps i (update_copy_args p prefix name i a)
  unfolding update_copy_args
  Keeps-update_copy_args i (string s) = search keep_rules
  Keeps-update_copy_args i (array l) = search (keep_rules, Keeps-with_replaced)
  Keeps-update_copy_args i object = search keep_rules

  Keeps-update_copy : (i : Instruction) → Keeps i (update_copy p prefix name i)
  unfolding update_copy
  Keeps-update_copy i = search (keep_rules, Keeps-update_copy_args)

  Keeps-with_mount :
      (i : Instruction) (o : Option (Text × Text × Text)) → Keeps i (with_mount p prefix name i o)
  unfolding with_mount
  Keeps-with_mount i none = search keep_rules
  Keeps-with_mount i (some (before, n, after)) = search keep_rules

  Keeps-update_run_args : (i : Instruction) (a : Args) → Keeps i (update_run_args p prefix name i a)
  unfolding update_run_args
  Keeps-update_run_args i (string s) = search (keep_rules, Keeps-with_mount)
  Keeps-update_run_args i (array l) = search keep_rules
  Keeps-update_run_args i object = search keep_rules

  Keeps-update_run : (i : Instruction) → Keeps i (update_run p prefix name i)
  unfolding update_run
  Keeps-update_run i = search (keep_rules, Keeps-update_run_args)

  pub Keeps-rescope : (i : Instruction) → Keeps i (rescope p prefix name i)
  unfolding rescope
  Keeps-rescope i =
      Keeps-bind i _ (update_run p prefix name)
        (Keeps-bind i _ (update_copy p prefix name)
          (Keeps-bind i _ (update_image p prefix name) (Keeps-update_as i) Keeps-update_image)
          Keeps-update_copy)
        Keeps-update_run
