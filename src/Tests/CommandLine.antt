-- ===== src/Tests/CommandLine.antt =====
-- The command line over the test world, and the limits.
use dockerfile_x.Common.{◌≡◌, refl, ◌≤◌, none, some, [], ◌∷◌, codes, trim}
use dockerfile_x.Errors.{thrown, ok, remote_fetch_failed}
use dockerfile_x.Exec.{done, pure, throw, lift, call, ◌>>=◌}
use dockerfile_x.Limits.{get_max_include_depth_from_env, parse_flag, to_decimal}
use dockerfile_x.Limits.Agreement.{get_max_include_depth_from_env-parse_flag}
use dockerfile_x.Cli.{CommandLine, Process, get_data_from_stdin, action, reported}
use dockerfile_x.Cli.Payload.{JsonObject, text, payload}
use dockerfile_x.Cli.Reports.{IsReport, payload-IsReport}
use dockerfile_x.Tests.World.{packages, api, parse, digest, read_file}

abbrev host : Process (Unit {0})
host = record {
  tmpdir_variable = none;
  depth_variable = some (codes "7");
  tmpdir = codes "/tmp";
  now = codes "12";
  buffer_to_string = λ s. s;
  stdin_chunks = λ w. (codes "FROM " ∷ codes "debian" ∷ [], w);
  write_file = λ path content w. (ok tt, w);
  unlink = λ path w. (ok tt, w);
}

-- The path `./loop` is joined to the context, which is `.` here.
abbrev line : CommandLine
line = record { context = codes "."; file = codes "loop"; output = none; max_include_depth = none }

-- The test world has no file `loop`, so it is missed.
missing_reported :
    (action api packages host line tt).0
    ≡ done (
        reported (
          (codes "error", text (codes "missing-file"))
          ∷ (codes "filename", text (codes "loop"))
          ∷ []))
unfolding action pure throw lift call ◌>>=◌ parse digest read_file
missing_reported = refl

-- The file is the standard input.
abbrev piped : CommandLine
piped = record { context = codes "."; file = codes "-"; output = none; max_include_depth = none }

two_chunks :
    get_data_from_stdin host.buffer_to_string [] (host.stdin_chunks tt).0 ≡ codes "FROM debian"
unfolding get_data_from_stdin
two_chunks = refl

abbrev fetch_fields : JsonObject
fetch_fields =
    (codes "error", text (codes "remote-fetch-failed"))
    ∷ (codes "url", text (codes "http://h/a.dockerfile"))
    ∷ (codes "originalUrl", text (codes "http://h/a"))
    ∷ (codes "message", text (codes "no"))
    ∷ []

fetch_reported :
    payload (
      thrown
        (remote_fetch_failed (codes "http://h/a.dockerfile") (codes "http://h/a") (codes "no")))
    ≡ some fetch_fields
unfolding payload
fetch_reported = refl

payload-IsReport_example :
    IsReport
      (thrown
        (remote_fetch_failed (codes "http://h/a.dockerfile") (codes "http://h/a") (codes "no")))
      fetch_fields
payload-IsReport_example =
    payload-IsReport
      (thrown
        (remote_fetch_failed (codes "http://h/a.dockerfile") (codes "http://h/a") (codes "no")))
      fetch_fields fetch_reported

env_accepts : get_max_include_depth_from_env (some (codes " 32 ")) ≡ ok (some 32)
unfolding get_max_include_depth_from_env trim
env_accepts = refl

get_max_include_depth_from_env-parse_flag_example :
    (parse_flag (codes " 32 ") ≡ ok 32) × (1 ≤ 32) × (trim (codes " 32 ") ≡ to_decimal 32)
get_max_include_depth_from_env-parse_flag_example =
    get_max_include_depth_from_env-parse_flag (codes " 32 ") 32 env_accepts

-- A number with text behind it is accepted by the option alone.
flag_accepts : parse_flag (codes "5x") ≡ ok 5
unfolding parse_flag
flag_accepts = refl
