-- ===== src/SanitizeNames/Linked.antt =====
-- A stage that is declared and an instruction below that names it.
use dockerfile_x.Common.{
  ◌≡◌, refl, ap, true, false, some, List, [], ◌∷◌, ◌++◌, map, Text, codes, newline, ◌||◌, ◌∙◌, same,
}
use dockerfile_x.Errors.{ok, ◌>>=◌, >>=-eq-ok}
use dockerfile_x.Packages.{Packages, string, array}
use dockerfile_x.Instruction.{Instruction, with_args}
use dockerfile_x.Parse.{parse_dockerfile}
use dockerfile_x.Regex.{split_as}
use dockerfile_x.Names.{sanitize_stage_name}
use dockerfile_x.SanitizeNames.{
  AliasMap, get, renamed, sanitize_arg, sanitize_from, sanitize_from_args, sanitize_copy_args,
  raw_with, sanitize_instruction, sanitize_all, sanitize_stage_names,
}
use dockerfile_x.SanitizeNames.References.{
  IsValue, IsKnown-new, aliases_behind-IsKnown, sanitize_all-append, sanitize_all-head,
  sanitize_arg-from,
}

abbrev pub from_argument : Text → Text
from_argument name = codes "--from=" ++ name

-- An instruction that names a stage: the image of a FROM, with or without an alias of its own, or a `--from` of COPY
-- or ADD.
pub data Names (alias : Text) (j : Instruction) : Type 0 where
  image_alone :
      (s : Text)
      → same j.name (codes "FROM") ≡ true
      → j.args ≡ string s
      → split_as s ≡ alias ∷ []
      → Names alias j
  image_as :
      (s other : Text)
      → same j.name (codes "FROM") ≡ true
      → j.args ≡ string s
      → split_as s ≡ alias ∷ other ∷ []
      → Names alias j
  copied :
      (l r : List Text)
      → same j.name (codes "FROM") ≡ false
      → (same j.name (codes "COPY") || same j.name (codes "ADD")) ≡ true
      → j.args ≡ array (l ++ from_argument alias ∷ r)
      → Names alias j

map-append {ℓ} : {A B : Type ℓ} (f : A → B) (l m : List A) → map f (l ++ m) ≡ map f l ++ map f m
map-append f [] m = refl
map-append f (x ∷ l) m = ap (λ r. f x ∷ r) (map-append f l m)

module _ (p : Packages) (alias : Text) (j : Instruction) where
  -- The line of such an instruction names the sanitized alias in the place of the alias.
  abbrev pub IsRenamed : AliasMap → Names alias j → Text → Type 0
  IsRenamed behind (image_alone s _ _ _) line = line ≡ codes "FROM " ++ sanitize_stage_name p alias
  IsRenamed behind (image_as s other _ _ _) line =
      line
      ≡ codes "FROM "
        ++ (sanitize_stage_name p alias ++ (codes " AS " ++ sanitize_stage_name p other))
  IsRenamed behind (copied l r _ _ _) line =
      (k : Instruction) × (with_args p j (
          array (
            map (sanitize_arg behind) l
            ++ from_argument (sanitize_stage_name p alias) ∷ map (sanitize_arg behind) r))
        ≡ ok k)
      × (line ≡ k.raw)

  sanitize_instruction-IsRenamed :
      (behind after : AliasMap) (r : Names alias j) (line : Text)
      → IsValue alias
      → get alias behind ≡ some (sanitize_stage_name p alias)
      → sanitize_instruction p behind j ≡ ok (line, after)
      → IsRenamed behind r line
  unfolding sanitize_instruction sanitize_from_args sanitize_from sanitize_copy_args raw_with
      renamed
  sanitize_instruction-IsRenamed behind after (image_alone s f a e) line v k h =
      cc (rw (f, a, e, renamed, k) at h)
  sanitize_instruction-IsRenamed behind after (image_as s other f a e) line v k h =
      cc (rw (f, a, e, renamed, k) at h)
  sanitize_instruction-IsRenamed behind after (copied l r f c a) line v k h =
      let named : map (sanitize_arg behind) (l ++ from_argument alias ∷ r)
          ≡ map (sanitize_arg behind) l
            ++ from_argument (sanitize_stage_name p alias) ∷ map (sanitize_arg behind) r =
        map-append (sanitize_arg behind) l (from_argument alias ∷ r)
        ∙ rw (sanitize_arg-from behind alias _ v k) refl in
      let args : List Text =
        map (sanitize_arg behind) l
        ++ from_argument (sanitize_stage_name p alias) ∷ map (sanitize_arg behind) r in
      let h' : (with_args p j (array args) >>= λ i. ok (i.raw, behind)) ≡ ok (line, after) =
        rw (f, c, a, named) at h in
      let (i, made, h1) = >>=-eq-ok (with_args p j (array args)) (λ i. ok (i.raw, behind)) h' in
      (i, made, cc)

-- The line of a FROM that declares an alias.
sanitize_instruction-declares :
    (p : Packages) (aliases behind : AliasMap) (f : Instruction) (s image alias line : Text)
    → same f.name (codes "FROM") ≡ true
    → f.args ≡ string s
    → split_as s ≡ image ∷ alias ∷ []
    → sanitize_instruction p aliases f ≡ ok (line, behind)
    → (line
        ≡ codes "FROM " ++ (renamed aliases image ++ (codes " AS " ++ sanitize_stage_name p alias)))
      × (behind ≡ (alias, sanitize_stage_name p alias) ∷ aliases)
unfolding sanitize_instruction sanitize_from_args sanitize_from
sanitize_instruction-declares p aliases behind f s image alias line n a e h =
    (cc (rw (n, a, e) at h), cc (rw (n, a, e) at h))

joined :
    (t t0 r0 line0 r1 t2 r2 line r3 declared : Text)
    → t ≡ t0 ++ r0
    → r0 ≡ line0 ++ (newline ++ r1)
    → r1 ≡ t2 ++ r2
    → r2 ≡ line ++ (newline ++ r3)
    → line0 ≡ declared
    → t ≡ t0 ++ (declared ++ (newline ++ (t2 ++ (line ++ (newline ++ r3)))))
joined t t0 r0 line0 r1 t2 r2 line r3 declared e0 e1 e2 e3 e = cc

-- What stands in the text for a FROM that declares an alias and for an instruction below it that names the alias.
pub data AreLinked (p : Packages) (alias : Text) (j : Instruction) (names : Names alias j)
    (text : Text) : Type 0 where
  linked :
      (above image between line below : Text) (aliases : AliasMap)
      → text
        ≡ above
          ++ ((codes "FROM " ++ (image ++ (codes " AS " ++ sanitize_stage_name p alias)))
              ++ (newline ++ (between ++ (line ++ (newline ++ below)))))
      → IsRenamed p alias j aliases names line
      → AreLinked p alias j names text

-- Where sanitizeStageNames returns, a FROM that declares an alias without `=` is written with the sanitized alias,
-- and each FROM, COPY and ADD below it that names the alias is written with the sanitized alias in its place,
-- whatever stands in between.
pub sanitize_stage_names-AreLinked :
    (p : Packages) (content text : Text) (above : List Instruction) (f : Instruction)
    (between : List Instruction) (j : Instruction) (below : List Instruction) (s image alias : Text)
    → parse_dockerfile p content ≡ ok (above ++ f ∷ (between ++ j ∷ below))
    → same f.name (codes "FROM") ≡ true
    → f.args ≡ string s
    → split_as s ≡ image ∷ alias ∷ []
    → IsValue alias
    → (names : Names alias j) → sanitize_stage_names p content ≡ ok text
    → AreLinked p alias j names text
unfolding sanitize_stage_names
sanitize_stage_names-AreLinked p content text above f between j below s image alias parsed n a e v
      names h =
    let h0 : sanitize_all p [] (above ++ f ∷ (between ++ j ∷ below)) ≡ ok text = rw parsed at h in
    let (t0, m0, r0, k0, s0, e0) =
      sanitize_all-append p above (f ∷ (between ++ j ∷ below)) [] {text = text} h0 in
    let (line0, m1, r1, i1, s1, e1) = sanitize_all-head p f (between ++ j ∷ below) m0 s0 in
    let (is_line, is_map) = sanitize_instruction-declares p m0 m1 f s image alias line0 n a e i1 in
    let (t2, m2, r2, k2, s2, e2) = sanitize_all-append p between (j ∷ below) m1 s1 in
    let (line, m3, r3, i3, s3, e3) = sanitize_all-head p j below m2 s2 in
    let known : get alias m1 ≡ some (sanitize_stage_name p alias) =
      rw is_map (IsKnown-new p alias m0) in
    let named = aliases_behind-IsKnown p alias between m1 known k2 in
    linked t0 (renamed m0 image) t2 line r3 m2
      (joined text t0 r0 line0 r1 t2 r2 line r3 _ e0 e1 e2 e3 is_line)
      (sanitize_instruction-IsRenamed p alias j m2 m3 names line v named i3)
