-- ===== src/PostProcess/Target.antt =====
-- Whether the target stage of an included file is found.
use dockerfile_x.Common.{
  ℕ, suc, ◌≡◌, refl, sym, subst, any, ◌∙◌, Bool, true, false, ◌&&◌, Option, some, List, [], ◌∷◌,
  Text, if◌then◌else◌, any,
}
use dockerfile_x.Regex.{as_match}
use dockerfile_x.Instruction.{Instruction, is_from}
use dockerfile_x.Errors.{ok, >>=-eq-ok}
use dockerfile_x.Packages.{Packages}
use dockerfile_x.Parse.{parse_dockerfile}
use dockerfile_x.PostProcess.{
  Options, require_target, truthy, scoped, check_target, local_stage_target,
  post_process_dockerfile, matches_target, emit_all,
}

unfoldable pub is_target : Option Text → Instruction → Bool
unfolding matches_target
is_target target i = is_from i && matches_target target (as_match i.raw)

module _ (stage_alias target : Option Text) (is_root_include : Bool) (n : ℕ) where
  emit_all-found :
      (is : List Instruction) (k : ℕ)
      → (emit_all stage_alias target is_root_include n is k).1 ≡ any (is_target target) is
  unfolding emit_all is_target
  emit_all-found [] k = refl
  emit_all-found (i ∷ is) k = rw (emit_all-found is (if is_from i then suc k else k)) refl

check_target-found :
    (p : Packages) (o : Options) (found : Bool) (target : Text) {u : Unit {0}}
    → truthy o.stage_target ≡ some target
    → check_target p o found ≡ ok u
    → found ≡ true
unfolding check_target
check_target-found p o true target e h = refl
check_target-found p o false target e h = cc (subst (λ x. require_target p o false x ≡ ok _) e h)

-- A file that is compiled for a target stage has it: some FROM of its instructions, after they were
-- scoped, has the slug of the file and the target, joined by `--`, as the name of its stage.
pub post_process_dockerfile-has_target :
    (p : Packages) (content : Text) (o : Options) (target text : Text)
    → truthy o.stage_target ≡ some target
    → post_process_dockerfile p content o ≡ ok text
    → (parsed : List Instruction) × (is : List Instruction) × (parse_dockerfile p content
        ≡ ok parsed)
      × (scoped p o parsed ≡ ok is)
      × (any (is_target (local_stage_target p o.scope (some target))) is ≡ true)
unfolding post_process_dockerfile
post_process_dockerfile-has_target p content o target text e h =
    let (parsed, hp, h1) = >>=-eq-ok (parse_dockerfile p content) _ h in
    let (is, hs, h2) = >>=-eq-ok (scoped p o parsed) _ h1 in
    let (u, hc, h3) = >>=-eq-ok (check_target p o _) _ h2 in
    (
      parsed,
      is,
      hp,
      hs,
      subst (λ x. any (is_target (local_stage_target p o.scope x)) is ≡ true) e
          (sym (emit_all-found _ _ _ _ is 0) ∙ check_target-found p o _ target e hc),
    )
