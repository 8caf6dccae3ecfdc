-- ===== src/Tests/Passes.antt =====
-- The passes and the sources at concrete arguments.
use mathlib.Core.List.{flatten}
use dockerfile_x.Common.{
  ℕ, ◌≤◌, ◌≡◌, refl, false, some, List, [], ◌∷◌, Text, codes, map, join, newline, length, All,
  starts_with,
}
use dockerfile_x.Common.Split.{split_at}
use dockerfile_x.Errors.{ok, err, path_traversal}
use dockerfile_x.Packages.{string}
use dockerfile_x.Instruction.{Instruction}
use dockerfile_x.Names.{sanitize_stage_name}
use dockerfile_x.Names.Bounds.{IsLowerUnit, sanitize_stage_name_bounds}
use dockerfile_x.Deduplicate.{group_stages, stage_text, deduplicate_stages}
use dockerfile_x.Deduplicate.Groups.{AreStages, group_stages_cut}
use dockerfile_x.Deduplicate.Kept.{deduplicate_stages-firsts}
use dockerfile_x.Common.Firsts.{firsts}
use dockerfile_x.Parse.{parse_dockerfile}
use dockerfile_x.Source.RelativePath.{sanitize_relative_path}
use dockerfile_x.Source.RelativePath.Safe.{walk, sanitize_relative_path_safe}
use dockerfile_x.Tests.World.{packages, parse, sha256-IsHexDigest}

sanitize_stage_name_bounds_example :
    All IsLowerUnit (sanitize_stage_name packages (codes "My.Stage"))
    × (length (sanitize_stage_name packages (codes "My.Stage")) ≤ 255)
    × (sanitize_stage_name packages (sanitize_stage_name packages (codes "My.Stage"))
        ≡ sanitize_stage_name packages (codes "My.Stage"))
sanitize_stage_name_bounds_example =
    sanitize_stage_name_bounds packages (codes "My.Stage") sha256-IsHexDigest

abbrev from_debian : Instruction
from_debian = record {
  name = codes "FROM";
  args = string (codes "debian");
  lineno = 1;
  raw = codes "FROM debian";
}

abbrev run_apt : Instruction
run_apt = record {
  name = codes "RUN";
  args = string (codes "apt");
  lineno = 2;
  raw = codes "RUN apt";
}

abbrev two_stages : List Instruction
two_stages = from_debian ∷ run_apt ∷ from_debian ∷ []

group_stages_cut_example :
    (flatten (group_stages two_stages) ≡ two_stages) × AreStages (group_stages two_stages)
group_stages_cut_example = group_stages_cut two_stages

-- The second stage stands again as the fourth, and is kept where it stands first.
abbrev repeated : Text
repeated = codes "ARG a\nFROM b\nFROM c\nFROM b\nFROM d"

without_repeat : deduplicate_stages packages repeated ≡ ok (codes "ARG a\nFROM b\nFROM c\nFROM d")
unfolding deduplicate_stages parse
without_repeat = refl

deduplicate_stages-firsts_example :
    (is : List Instruction) × (stages : List (List Instruction)) × (parse_dockerfile packages
        repeated
      ≡ ok is)
    × (flatten stages ≡ is)
    × AreStages stages
    × (codes "ARG a\nFROM b\nFROM c\nFROM d" ≡ join newline (firsts (map stage_text stages)))
deduplicate_stages-firsts_example =
    deduplicate_stages-firsts packages repeated (codes "ARG a\nFROM b\nFROM c\nFROM d")
      without_repeat

accepted : sanitize_relative_path (codes "/a/./b.c") (codes "ref") ≡ ok (codes "a/./b.c")
unfolding sanitize_relative_path
accepted = refl

refused :
    sanitize_relative_path (codes "a/..\\b") (codes "ref") ≡ err (path_traversal (codes "ref"))
unfolding sanitize_relative_path
refused = refl

sanitize_relative_path_safe_example :
    (starts_with (codes "/") (codes "a/./b.c") ≡ false)
    × ((depth : ℕ) × (walk 0 (split_at b'/' (codes "a/./b.c")) ≡ some depth))
    × (sanitize_relative_path (codes "a/./b.c") (codes "ref") ≡ ok (codes "a/./b.c"))
sanitize_relative_path_safe_example =
    sanitize_relative_path_safe (codes "/a/./b.c") (codes "ref") accepted
