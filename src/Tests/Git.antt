-- ===== src/Tests/Git.antt =====
-- A git reference.
use dockerfile_x.Common.{◌≡◌, refl, false, none, codes, starts_with}
use dockerfile_x.Errors.{ok}
use dockerfile_x.Source.Git.{GitSource, parse_reference, git_display_path}
use dockerfile_x.Source.Git.RoundTrip.{parse_reference-display_path}

abbrev pub source : GitSource
source = record {
  repo = codes "https://x/y";
  ref = codes "main";
  file_path = codes "a/b:c";
  default_extension = codes ".dockerfile";
  oid = none;
}

parsed : parse_reference (codes "GIT+https://x/y#main:/a/b:c") none ≡ ok source
unfolding parse_reference
parsed = refl

parse_reference-display_path_example :
    (parse_reference (git_display_path source) none ≡ ok source)
    × (starts_with (codes "-") source.repo ≡ false)
    × (starts_with (codes "-") source.ref ≡ false)
parse_reference-display_path_example =
    parse_reference-display_path (codes "GIT+https://x/y#main:/a/b:c") none source parsed
