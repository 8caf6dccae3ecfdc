-- ===== src/Deduplicate.antt =====
-- src/lib/deduplicateStages.js: a stage that stands a second time is left out.
pub mod Groups
pub mod Kept
use dockerfile_x.Common.{
  Bool, true, false, List, [], ◌∷◌, ◌++◌, map, Text, if◌then◌else◌, join, newline, includes, same,
}
use dockerfile_x.Errors.{Result, ok, ◌>>=◌}
use dockerfile_x.Packages.{Packages}
use dockerfile_x.Instruction.{Instruction, is_from}
use dockerfile_x.Parse.{parse_dockerfile}

-- `if (currentStage.length) stages.push(currentStage)`
abbrev pub push_stage : List (List Instruction) → List Instruction → List (List Instruction)
push_stage stages [] = stages
push_stage stages (i ∷ is) = stages ++ (i ∷ is) ∷ []

-- The loop over the instructions, with `stages` and `currentStage`, and the last push behind it.
group_from : List (List Instruction) → List Instruction → List Instruction → List (List Instruction)
group_from stages current [] = push_stage stages current
group_from stages current (i ∷ is) =
    group_from (if is_from i then push_stage stages current else stages)
      (if is_from i then i ∷ [] else current ++ i ∷ []) is

unfoldable pub group_stages : List Instruction → List (List Instruction)
unfolding group_from same
group_stages is = group_from [] [] is

-- `stage.map((instruction) => instruction.raw).join("\n")`
unfoldable pub stage_text : List Instruction → Text
unfolding join
stage_text stage = join newline (map (λ (i : Instruction). i.raw) stage)

-- `[...new Set(list)]`: the values in the order of their first insertion.
unique_from : List Text → List Text → List Text
unfolding includes
unique_from seen [] = seen
unique_from seen (s ∷ l) = unique_from (if includes s seen then seen else seen ++ s ∷ []) l

unfoldable pub unique : List Text → List Text
unfolding unique_from
unique l = unique_from [] l

module _ (p : Packages) where
  unfoldable pub deduplicate_stages : Text → Result Text
  unfolding parse_dockerfile group_stages stage_text unique join
  deduplicate_stages docker_content = do
    instructions ← parse_dockerfile p docker_content
    ok (join newline (unique (map stage_text (group_stages instructions))))
