-- ===== src/SanitizeNames/References.antt =====
-- The map of aliases while a text is sanitized.
use dockerfile_x.Common.{
  ◌≡◌, refl, ap, subst, Bool, true, false, some, List, [], ◌∷◌, ◌++◌, map, Text, codes, ◌==◌, any,
  if◌then◌else◌, newline, append_assoc, ◌∙◌, sym, same, same_iff, same_refl, Bool-cases, inl, inr,
}
use dockerfile_x.Common.Split.{split_from_whole}
use dockerfile_x.Errors.{Result, ok, err, ◌>>=◌, >>=-eq-ok}
use dockerfile_x.Packages.{Packages, Args, string, array, object}
use dockerfile_x.Instruction.{Instruction, with_args}
use dockerfile_x.Regex.{split_as}
use dockerfile_x.Names.{sanitize_stage_name}
use dockerfile_x.SanitizeNames.{
  AliasMap, get, sanitize_arg, sanitize_from, sanitize_from_args, sanitize_copy_args, raw_with,
  sanitize_instruction, sanitize_all,
}

-- A text that has no `=`.
abbrev pub IsValue : Text → Type 0
IsValue s = any (λ c. c == b'=') s ≡ false

pub sanitize_arg-from :
    (aliases : AliasMap) (alias v : Text)
    → IsValue alias
    → get alias aliases ≡ some v
    → sanitize_arg aliases (codes "--from=" ++ alias) ≡ codes "--from=" ++ v
unfolding sanitize_arg
sanitize_arg-from aliases alias v n h = rw (split_from_whole (λ c. c == b'=') alias [] n, h) refl

module _ (p : Packages) where
  -- The alias is known, and by its sanitized name.
  abbrev pub IsKnown : Text → AliasMap → Type 0
  IsKnown k aliases = get k aliases ≡ some (sanitize_stage_name p k)

  IsKnown-add :
      (k j : Text) (aliases : AliasMap)
      → IsKnown k aliases
      → IsKnown k ((j, sanitize_stage_name p j) ∷ aliases)
  unfolding get
  IsKnown-add k j aliases h = elim (Bool-cases (same j k)) [
    | inl e ↦ rw e (ap (λ x. some (sanitize_stage_name p x)) ((same_iff j k).0 e))
    | inr e ↦ rw e h
  ]

  sanitize_from-IsKnown :
      (k : Text) (aliases : AliasMap) (parts : List Text)
      → IsKnown k aliases
      → IsKnown k (sanitize_from p aliases parts).1
  unfolding sanitize_from
  sanitize_from-IsKnown k aliases [] h = h
  sanitize_from-IsKnown k aliases (image ∷ []) h = h
  sanitize_from-IsKnown k aliases (image ∷ alias ∷ []) h = IsKnown-add k alias aliases h
  sanitize_from-IsKnown k aliases (image ∷ alias ∷ more ∷ parts) h = h

  -- What holds of the map behind an instruction.
  unfoldable Knows : Text → Result (Text × AliasMap) → Type 0
  Knows k (ok (line, aliases)) = IsKnown k aliases
  Knows k (err e) = Unit

  Knows-ok : (k line : Text) (aliases : AliasMap) → IsKnown k aliases → Knows k (ok (line, aliases))
  unfolding Knows
  Knows-ok k line aliases h = h

  Knows-with_args :
      (k : Text) (aliases : AliasMap) (r : Result Instruction)
      → IsKnown k aliases
      → Knows k (r >>= λ j. ok (j.raw, aliases))
  unfolding Knows
  Knows-with_args k aliases (ok j) h = h
  Knows-with_args k aliases (err e) h = tt

  Knows-if :
      (k : Text) (b : Bool) (r s : Result (Text × AliasMap))
      → Knows k r
      → Knows k s
      → Knows k (if b then r else s)
  Knows-if k true r s hr hs = hr
  Knows-if k false r s hr hs = hs

  sanitize_from_args-Knows :
      (k : Text) (aliases : AliasMap) (a : Args)
      → IsKnown k aliases
      → Knows k (sanitize_from_args p aliases a)
  unfolding Knows sanitize_from_args
  sanitize_from_args-Knows k aliases (string s) h = sanitize_from-IsKnown k aliases (split_as s) h
  sanitize_from_args-Knows k aliases (array l) h = tt
  sanitize_from_args-Knows k aliases object h = tt

  sanitize_copy_args-Knows :
      (k : Text) (aliases : AliasMap) (i : Instruction) (a : Args)
      → IsKnown k aliases
      → Knows k (sanitize_copy_args p aliases i a)
  unfolding sanitize_copy_args raw_with
  sanitize_copy_args-Knows k aliases i (string s) h =
      Knows-with_args k aliases (with_args p i (string s)) h
  sanitize_copy_args-Knows k aliases i (array l) h =
      Knows-with_args k aliases (with_args p i (array (map (sanitize_arg aliases) l))) h
  sanitize_copy_args-Knows k aliases i object h = Knows-with_args k aliases (with_args p i object) h

  sanitize_instruction-Knows :
      (k : Text) (aliases : AliasMap) (i : Instruction)
      → IsKnown k aliases
      → Knows k (sanitize_instruction p aliases i)
  unfolding sanitize_instruction
  sanitize_instruction-Knows k aliases i h =
      Knows-if k _ _ _ (sanitize_from_args-Knows k aliases i.args h) (
        Knows-if k _ _ _ (sanitize_copy_args-Knows k aliases i i.args h)
          (Knows-ok k i.raw aliases h))

  sanitize_instruction-IsKnown :
      (k : Text) (aliases : AliasMap) (i : Instruction) {line : Text} {behind : AliasMap}
      → sanitize_instruction p aliases i ≡ ok (line, behind)
      → IsKnown k aliases
      → IsKnown k behind
  unfolding Knows
  sanitize_instruction-IsKnown k aliases i e h =
      subst (Knows k) e (sanitize_instruction-Knows k aliases i h)

  pub IsKnown-new :
      (k : Text) (aliases : AliasMap) → IsKnown k ((k, sanitize_stage_name p k) ∷ aliases)
  unfolding get
  IsKnown-new k aliases = rw (same_refl k) refl

  -- The map of aliases behind a list of instructions.
  unfoldable pub aliases_behind : AliasMap → List Instruction → Result AliasMap
  unfolding sanitize_instruction
  aliases_behind aliases [] = ok aliases
  aliases_behind aliases (i ∷ is) = do
    (line, aliases') ← sanitize_instruction p aliases i
    aliases_behind aliases' is

  pub aliases_behind-IsKnown :
      (k : Text) (is : List Instruction) (aliases : AliasMap) {behind : AliasMap}
      → IsKnown k aliases
      → aliases_behind aliases is ≡ ok behind
      → IsKnown k behind
  unfolding aliases_behind
  aliases_behind-IsKnown k [] aliases h e = cc
  aliases_behind-IsKnown k (i ∷ is) aliases h e =
      let ((line, aliases'), e0, e1) = >>=-eq-ok (sanitize_instruction p aliases i) _ e in
      aliases_behind-IsKnown k is aliases' (sanitize_instruction-IsKnown k aliases i e0 h) e1

  -- The text of the instructions, cut at one place.
  pub sanitize_all-append :
      (is js : List Instruction) (aliases : AliasMap) {text : Text}
      → sanitize_all p aliases (is ++ js) ≡ ok text
      → (front : Text) × (behind : AliasMap) × (rest : Text) × (aliases_behind aliases is
          ≡ ok behind)
        × (sanitize_all p behind js ≡ ok rest)
        × (text ≡ front ++ rest)
  unfolding sanitize_all aliases_behind
  sanitize_all-append [] js aliases {text} h = ([], aliases, text, refl, h, refl)
  sanitize_all-append (i ∷ is) js aliases {text} h =
      let ((line, aliases'), e0, h1) = >>=-eq-ok (sanitize_instruction p aliases i) _ h in
      let (text', e1, h2) = >>=-eq-ok (sanitize_all p aliases' (is ++ js)) _ h1 in
      let h2' : text ≡ line ++ (newline ++ text') = cc in
      let (front, behind, rest, known, below, e) = sanitize_all-append is js aliases' e1 in
      (
        line ++ (newline ++ front),
        behind,
        rest,
        rw e0 known,
        below,
        h2' ∙ ap (λ t. line ++ (newline ++ t)) e ∙ sym (append_assoc line (newline ++ front) rest),
      )

  -- The line of an instruction, and what stands below it.
  pub sanitize_all-head :
      (i : Instruction) (is : List Instruction) (aliases : AliasMap) {text : Text}
      → sanitize_all p aliases (i ∷ is) ≡ ok text
      → (line : Text) × (behind : AliasMap) × (rest : Text) × (sanitize_instruction p aliases i
          ≡ ok (line, behind))
        × (sanitize_all p behind is ≡ ok rest)
        × (text ≡ line ++ (newline ++ rest))
  unfolding sanitize_all
  sanitize_all-head i is aliases {text} h =
      let ((line, aliases'), e0, h1) = >>=-eq-ok (sanitize_instruction p aliases i) _ h in
      let (rest, e1, h2) = >>=-eq-ok (sanitize_all p aliases' is) _ h1 in
      (line, aliases', rest, e0, e1, cc)
