-- ===== src/Spawn.antt =====
-- src/lib/spawnCmd.js: git and oras as processes, over `execFile`. A number is exact here; a float is exact
-- below 2^53.
pub mod Bounded
use Prim.Native.Nat.{◌-◌, ◌^◌}
use dockerfile_x.Common.{
  ℕ, zero, suc, Option, none, some, List, [], ◌∷◌, ◌++◌, Text, codes, ltb, if◌then◌else◌, length,
  take, join,
}
use dockerfile_x.Errors.{Result, ok, err, command_failed}
use dockerfile_x.Io.{Io}
use dockerfile_x.Limits.{parse_number}

-- The options of `execFile`. `docker_config` is the value of DOCKER_CONFIG that `options.env` adds to the
-- environment, and `none` where it adds none.
pub record ExecOptions : Type 0 where
  pub max_buffer : ℕ
  pub timeout : ℕ
  pub kill_signal : Text
  pub docker_config : Option Text

-- What `execFile` hands to its callback: the message of the error, if there is one, and the two outputs.
pub record Run : Type 0 where
  pub error_message : Option Text
  pub stdout : Text
  pub stderr : Text

-- The value of DOCKERFILEX_SUBPROCESS_TIMEOUT_MS, and `execFile`.
pub record ChildProcess (W : Type 0) : Type 0 where
  pub timeout_variable : Option Text
  pub exec_file : Text → List Text → ExecOptions → W → Run × W

abbrev pub default_timeout_ms : ℕ
default_timeout_ms = 300000

-- The least number that is rounded to infinity.
unfoldable pub infinity : ℕ
infinity = 2 ^ 1024 - 2 ^ 970

-- `!Number.isFinite(n) || n <= 0`; `none` is NaN or a number below 0.
abbrev pub checked_timeout : Option ℕ → ℕ
checked_timeout none = default_timeout_ms
checked_timeout (some zero) = default_timeout_ms
checked_timeout (some (suc n)) = if ltb (suc n) infinity then suc n else default_timeout_ms

-- `getDefaultTimeout()` at the value of the variable; `none` is `undefined`.
unfoldable pub get_default_timeout : Option Text → ℕ
unfolding parse_number infinity
get_default_timeout none = default_timeout_ms
get_default_timeout (some []) = default_timeout_ms
get_default_timeout (some (c ∷ raw)) = checked_timeout (parse_number (c ∷ raw))

abbrev pub stderr_msg_limit : ℕ
stderr_msg_limit = 4096

-- "\n…[truncated]"
abbrev pub truncation_mark : Text
truncation_mark = 10 ∷ 8230 ∷ codes "[truncated]"

-- `truncated`
unfoldable pub truncate : Text → Text
truncate stderr =
    if ltb stderr_msg_limit (length stderr)
    then take stderr_msg_limit stderr ++ truncation_mark
    else stderr

-- `err.message`
unfoldable pub failed_message : Text → List Text → Text → Text → Text
unfolding truncate join
failed_message bin args message stderr =
    bin
    ++ (codes " "
        ++ (join (codes " ") args
            ++ (codes " failed: " ++ (message ++ (codes "\n" ++ truncate stderr)))))

abbrev pub exec_options : Option Text → Option Text → ExecOptions
unfolding get_default_timeout
exec_options timeout_variable docker_config = record {
  max_buffer = 67108864;
  timeout = get_default_timeout timeout_variable;
  kill_signal = codes "SIGKILL";
  docker_config = docker_config;
}

-- The callback.
abbrev pub settle : Text → List Text → Option Text → Run → Result Text
unfolding failed_message
settle bin args (some message) run =
    err (command_failed run.stderr (failed_message bin args message run.stderr))
settle bin args none run = ok run.stdout

-- `spawnCmd(bin, args, options)`, whose callers read `stdout` of what it returns
unfoldable pub spawn_cmd :
    {W : Type 0} → ChildProcess W → Text → Option Text → List Text → Io W Text
unfolding exec_options settle
spawn_cmd process bin docker_config args w =
    let (run, w') =
      process.exec_file bin args (exec_options process.timeout_variable docker_config) w in
    (settle bin args run.error_message run, w')
