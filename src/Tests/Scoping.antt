-- ===== src/Tests/Scoping.antt =====
-- A COPY from a stage of an included file.
use dockerfile_x.Common.{
  ◌≡◌, refl, false, some, List, [], ◌∷◌, ◌++◌, codes, get_elem?, includes, same, starts_with,
}
use dockerfile_x.Errors.{ok}
use dockerfile_x.Packages.{string, array}
use dockerfile_x.Instruction.{Instruction}
use dockerfile_x.Names.{generate_file_path_slug}
use dockerfile_x.Regex.{as_match}
use dockerfile_x.ScopeStages.{identify_all, scope_stages}
use dockerfile_x.ScopeStages.Kept.{AreKept}
use dockerfile_x.ScopeStages.Reference.{from_argument, IsCopy}
use dockerfile_x.ScopeStages.Declared.{Declares}
use dockerfile_x.ScopeStages.Copies.{scope_stages-scoped_copy}
use dockerfile_x.Tests.World.{packages, digest}

abbrev declaring : Instruction
declaring = record {
  name = codes "FROM";
  args = string (codes "debian AS base");
  lineno = 1;
  raw = codes "FROM debian AS base";
}

abbrev copying : Instruction
copying = record {
  name = codes "COPY";
  args = array (codes "--from=base" ∷ codes "a" ∷ codes "b" ∷ []);
  lineno = 2;
  raw = codes "COPY --from=base a b";
}

abbrev included : List Instruction
included = declaring ∷ copying ∷ []

abbrev with_slug : List Instruction
with_slug =
    record {
      name = codes "FROM";
      args = string (codes "debian AS appaaaaaa--base");
      lineno = 1;
      raw = codes "FROM debian AS appaaaaaa--base";
    }
    ∷ record {
      name = codes "COPY";
      args = array (codes "--from=appaaaaaa--base" ∷ codes "a" ∷ codes "b" ∷ []);
      lineno = 2;
      raw = codes "COPY --from=appaaaaaa--base a b";
    }
    ∷ []

with_slug_returned : scope_stages packages included (codes "app") ≡ ok with_slug
unfolding scope_stages digest
with_slug_returned = refl

included_names : identify_all packages included ≡ ok (codes "base" ∷ [], included)
unfolding identify_all
included_names = refl

declaring-Declares : Declares (codes "base") declaring
unfolding same as_match
declaring-Declares = record {
  args_of = codes "debian AS base";
  from = refl;
  is_string = refl;
  alias = refl;
}

copying-IsCopy : IsCopy copying
unfolding same
copying-IsCopy = record { not_from = refl; copies = refl; not_run = refl }

not_yet :
    includes
      (generate_file_path_slug packages (codes "app") ++ (codes "--" ++ codes "base"))
      (codes "base" ∷ [])
    ≡ false
unfolding generate_file_path_slug includes digest
not_yet = refl

scope_stages-scoped_copy_example :
    AreKept included with_slug
    × ((d : Instruction) × (get_elem? with_slug 1 ≡ some d)
        × (d.args
            ≡ array (
                []
                ++ from_argument
                    (generate_file_path_slug packages (codes "app") ++ (codes "--" ++ codes "base"))
                  ∷ codes "a"
                  ∷ codes "b"
                  ∷ [])))
scope_stages-scoped_copy_example =
    scope_stages-scoped_copy packages included with_slug included (codes "app") (codes "base")
      (codes "base" ∷ []) [] (codes "a" ∷ codes "b" ∷ []) 1 0 copying declaring with_slug_returned
      refl declaring-Declares refl copying-IsCopy refl tt (unfold starts_with in (refl, (refl, tt)))
      included_names not_yet
