-- ===== src/Tests/Parsing.antt =====
-- A here-document, and the comment in front of it.
use dockerfile_x.Common.{◌≡◌, refl, true, List, [], ◌∷◌, Text, codes, join, newline}
use dockerfile_x.Common.Split.{split_lines}
use dockerfile_x.Errors.{ok}
use dockerfile_x.Packages.{Packages, Command, string}
use dockerfile_x.Instruction.{Instruction}
use dockerfile_x.Parse.{parse_dockerfile_with}
use dockerfile_x.Parse.Ranges.{AreRead}
use dockerfile_x.Parse.Reading.{parse_dockerfile_with-AreRead}
use dockerfile_x.Tests.World.{packages, parse}

abbrev content : Text
content =
    join newline
      (codes "# a" ∷ codes "RUN cat <<EOF" ∷ codes "hello" ∷ codes "EOF" ∷ codes "RUN ls" ∷ [])

abbrev instructions : List Instruction
instructions =
    record { name = codes "COMMENT"; args = string (codes "# a"); lineno = 1; raw = codes "# a" }
    ∷ record {
      name = codes "RUN";
      args = string (codes "cat <<EOF");
      lineno = 2;
      raw = codes "RUN cat <<EOF\nhello\nEOF";
    }
    ∷ record { name = codes "RUN"; args = string (codes "ls"); lineno = 5; raw = codes "RUN ls" }
    ∷ []

parsed : parse_dockerfile_with packages true content ≡ ok instructions
unfolding parse_dockerfile_with parse join
parsed = refl

parse_dockerfile_with-AreRead_example :
    (cs : List Command) × (Packages.parse packages content ≡ ok cs)
    × AreRead true (split_lines content) cs instructions
parse_dockerfile_with-AreRead_example =
    parse_dockerfile_with-AreRead packages true content instructions parsed
