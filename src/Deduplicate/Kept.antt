-- ===== src/Deduplicate/Kept.antt =====
-- Which stages are kept, and in which order.
use mathlib.Core.List.{flatten}
use dockerfile_x.Common.{
  ◌≡◌, refl, ◌∙◌, List, [], ◌∷◌, ◌++◌, map, Text, includes, if◌then◌else◌, join, newline,
}
use dockerfile_x.Common.Firsts.{firsts, inserted, inserted-firsts}
use dockerfile_x.Errors.{ok, >>=-eq-ok}
use dockerfile_x.Packages.{Packages}
use dockerfile_x.Instruction.{Instruction}
use dockerfile_x.Parse.{parse_dockerfile}
use dockerfile_x.Deduplicate.{group_stages, stage_text, unique_from, unique, deduplicate_stages}
use dockerfile_x.Deduplicate.Groups.{AreStages, group_stages_cut}

unique_from-inserted : (seen l : List Text) → unique_from seen l ≡ inserted seen l
unfolding unique_from inserted
unique_from-inserted seen [] = refl
unique_from-inserted seen (s ∷ l) =
    unique_from-inserted (if includes s seen then seen else seen ++ s ∷ []) l

unique-firsts : (l : List Text) → unique l ≡ firsts l
unfolding unique
unique-firsts l = unique_from-inserted [] l ∙ inserted-firsts l

-- Where deduplicateStages returns, its text is that of the stages of the file, in their order, each joined by line
-- feeds, without every stage whose text is that of one above it; all that stands above the first FROM counts as a
-- stage.
pub deduplicate_stages-firsts :
    (p : Packages) (content text : Text)
    → deduplicate_stages p content ≡ ok text
    → (is : List Instruction) × (stages : List (List Instruction)) × (parse_dockerfile p content
        ≡ ok is)
      × (flatten stages ≡ is)
      × AreStages stages
      × (text ≡ join newline (firsts (map stage_text stages)))
unfolding deduplicate_stages
deduplicate_stages-firsts p content text h =
    let (is, parsed, h1) = >>=-eq-ok (parse_dockerfile p content) _ h in
    let (joined, cut) = group_stages_cut is in
    let kept = unique-firsts (map stage_text (group_stages is)) in
    (is, group_stages is, parsed, joined, cut, cc)
