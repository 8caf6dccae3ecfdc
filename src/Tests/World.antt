-- ===== src/Tests/World.antt =====
-- A parser of commands on one line, digests, a file system of three files, and two addresses.
use dockerfile_x.Common.{
  ℕ, zero, suc, ◌≡◌, Bool, true, ◌||◌, Option, none, some, List, [], ◌∷◌, Text, codes, ◌==◌,
  if◌then◌else◌, all, length, same, take_while, drop_while, to_upper, not, arith,
}
use dockerfile_x.Common.Split.{split_lines, split_spaces}
use dockerfile_x.Errors.{Result, ok, err, missing_file}
use dockerfile_x.Packages.{Packages, Command, Args, string, array, is_hex, IsHexDigest}
use dockerfile_x.Source.{SourceApi}
use dockerfile_x.Download.Redirects.{Url, Platform}

abbrev blank : ℕ → Bool
blank c = c == b' '

-- COPY, ADD and ARG have arrays of arguments.
abbrev arguments : Text → Text → Args
arguments name rest =
    if same name (codes "COPY") || same name (codes "ADD") || same name (codes "ARG")
    then array (split_spaces rest)
    else string rest

unfoldable pub command : Text → ℕ → Command
unfolding same split_spaces take_while drop_while to_upper
command line lineno =
    let name = to_upper (take_while (λ c. not (blank c)) line) in
    let rest = drop_while blank (drop_while (λ c. not (blank c)) line) in
    record { name = name; args = arguments name rest; lineno = lineno; raw = some line }

abbrev comment : Text → ℕ → Command
comment line lineno = record {
  name = codes "COMMENT";
  args = string line;
  lineno = lineno;
  raw = none;
}

commands : List Text → ℕ → List Command
unfolding command
commands [] n = []
commands ([] ∷ lines) n = commands lines (suc n)
commands ((c ∷ line) ∷ lines) n =
    (if c == b'#' then comment (c ∷ line) (suc n) else command (c ∷ line) (suc n))
    ∷ commands lines (suc n)

unfoldable pub parse : Text → Result (List Command)
unfolding commands split_lines
parse content = ok (commands (split_lines content) 0)

repeat : ℕ → ℕ → Text
repeat zero c = []
repeat (suc n) c = c ∷ repeat n c

-- A digest that depends on the length alone.
unfoldable pub digest : ℕ → Text → Text
unfolding repeat
digest size s = repeat size (if length s == 7 then b'7' else b'a')

abbrev pub packages : Packages
packages = record {
  parse = parse;
  dotenv_parse = λ s. (codes "A", s) ∷ [];
  json_stringify = λ l. [];
  md5 = digest 32;
  sha256 = digest 64;
}

digest-32 : (s : Text) → (all is_hex (digest 32 s) ≡ true) × (length (digest 32 s) ≡ 32)
unfolding digest
digest-32 s = ground arith

digest-64 : (s : Text) → (all is_hex (digest 64 s) ≡ true) × (length (digest 64 s) ≡ 64)
unfolding digest
digest-64 s = ground arith

pub md5-IsHexDigest : IsHexDigest 32 packages.md5
md5-IsHexDigest = record { hex = λ s. (digest-32 s).0; size_of = λ s. (digest-32 s).1 }

pub sha256-IsHexDigest : IsHexDigest 64 packages.sha256
sha256-IsHexDigest = record { hex = λ s. (digest-64 s).0; size_of = λ s. (digest-64 s).1 }

-- `loop` includes itself, and `app` is built from the stage of `base`.
unfoldable pub file : Text → Option Text
unfolding same
file path =
    if same path (codes "./loop")
    then some (codes "INCLUDE ./loop")
    else if same path (codes "./app")
    then some (codes "FROM ./base\nRUN make")
    else if same path (codes "./base")
    then some (codes "FROM debian\nRUN apt")
    else none

unfoldable pub read_file : Text → Unit {0} → Result (Text × Text) × Unit {0}
unfolding file
read_file path w = elim (file path) [
  | none ↦ (err (missing_file path), w)
  | some content ↦ (ok (content, path), w)
]

-- A source is the path of a file.
abbrev pub api : SourceApi
api = record {
  World = Unit {0};
  Source = Text;
  new_http = λ url ext. ok url;
  parse_git = λ ref ext. ok ref;
  parse_oci = λ ref ext. ok ref;
  new_local = λ path ctx ext base. ok path;
  join_relative = λ parent path. ok path;
  with_default_extension = λ s. none;
  resolve = λ s w. (ok s, w);
  read = read_file;
  key = λ s. s;
  display_path = λ s ctx. s;
  stage_alias_base = λ s ctx. s;
  fs_path = λ s. some s;
}

abbrev pub url_at : Text → Url
url_at name = record {
  href = codes "https://x";
  protocol = codes "https:";
  host = name;
  hostname = name;
}

-- A platform that knows two addresses.
unfoldable pub platform : Platform
unfolding same
platform = record {
  is_ip = λ s. if same s (codes "10.0.0.1") then 4 else if same s (codes "10.0.0.0") then 4 else 0;
  parse_url = λ s. some (url_at s);
  new_url = λ location base. none;
}
