-- ===== src/Spawn/Bounded.antt =====
-- What the callers of spawnCmd.js rely on: an end in time, and messages that are bounded.
use dockerfile_x.Common.{
  ℕ, zero, suc, ◌+◌, ◌≤◌, ◌<◌, ◌≡◌, refl, inl, inr, Option, none, some, List, [], ◌∷◌, ◌++◌, Text,
  codes, ltb, length, take, join, length-append, length-take, arith, Bool-cases, lt_of_ltb,
  le_of_not-ltb,
}
use dockerfile_x.Errors.{Result, ok, err, command_failed}
use dockerfile_x.Limits.{parse_number}
use dockerfile_x.Spawn.{
  Run, ExecOptions, ChildProcess, default_timeout_ms, infinity, checked_timeout,
  get_default_timeout, stderr_msg_limit, truncate, truncation_mark, failed_message, spawn_cmd,
  exec_options, settle,
}

default-lt-infinity : default_timeout_ms < infinity
unfolding infinity
default-lt-infinity = omega arith

checked_timeout_bounds : (n : Option ℕ) → (1 ≤ checked_timeout n) × (checked_timeout n < infinity)
checked_timeout_bounds none = (omega arith, default-lt-infinity)
checked_timeout_bounds (some zero) = (omega arith, default-lt-infinity)
checked_timeout_bounds (some (suc n)) = elim (Bool-cases (ltb (suc n) infinity)) [
  | inl e ↦ rw e (omega arith, lt_of_ltb _ _ e)
  | inr e ↦ rw e (omega arith, default-lt-infinity)
]

get_default_timeout_bounds :
    (raw : Option Text) → (1 ≤ get_default_timeout raw) × (get_default_timeout raw < infinity)
unfolding get_default_timeout
get_default_timeout_bounds none = (omega arith, default-lt-infinity)
get_default_timeout_bounds (some []) = (omega arith, default-lt-infinity)
get_default_timeout_bounds (some (c ∷ raw)) = checked_timeout_bounds (parse_number (c ∷ raw))

-- The whole text, or its first 4096 units and the mark.
length-truncate : (s : Text) → length (truncate s) ≤ stderr_msg_limit + length truncation_mark
unfolding truncate
length-truncate s = elim (Bool-cases (ltb stderr_msg_limit (length s))) [
  | inl e ↦ rw e (
      omega (
        arith,
        length-append (take stderr_msg_limit s) truncation_mark,
        length-take stderr_msg_limit s,
      ))
  | inr e ↦ rw e (omega (arith, le_of_not-ltb _ _ e))
]

length-failed_message :
    (bin : Text) (args : List Text) (message stderr : Text)
    → length (failed_message bin args message stderr)
      ≤ length bin + length (join (codes " ") args) + length message + 4128
unfolding failed_message
length-failed_message bin args message stderr =
    let last = length-append (codes "\n") (truncate stderr) in
    let shown = length-append message (codes "\n" ++ truncate stderr) in
    let failed = length-append (codes " failed: ") (message ++ (codes "\n" ++ truncate stderr)) in
    let joined =
      length-append (join (codes " ") args)
        (codes " failed: " ++ (message ++ (codes "\n" ++ truncate stderr))) in
    let spaced = length-append (codes " ") (
      join (codes " ") args
      ++ (codes " failed: " ++ (message ++ (codes "\n" ++ truncate stderr)))) in
    let whole = length-append bin (
      codes " "
      ++ (join (codes " ") args
          ++ (codes " failed: " ++ (message ++ (codes "\n" ++ truncate stderr))))) in
    omega (arith, length-truncate stderr)

-- What is made of a run: its output, or an error with all that it wrote to its standard error and a message
-- of bounded length.
pub IsOutcome : Text → List Text → Run → Result Text → Type 0
IsOutcome bin args run (ok s) = (run.error_message ≡ none) × (s ≡ run.stdout)
IsOutcome bin args run (err (command_failed stderr shown)) =
    (message : Text) × (run.error_message ≡ some message)
    × (stderr ≡ run.stderr)
    × (length shown ≤ length bin + length (join (codes " ") args) + length message + 4128)
IsOutcome bin args run (err _) = ⊥

settle-IsOutcome :
    (bin : Text) (args : List Text) (message : Option Text) (run : Run)
    → run.error_message ≡ message
    → IsOutcome bin args run (settle bin args message run)
unfolding IsOutcome settle
settle-IsOutcome bin args none run e = (e, refl)
settle-IsOutcome bin args (some message) run e =
    (message, e, refl, length-failed_message bin args message run.stderr)

-- A run that was made: once, under a timeout that is not 0 and finite, and what came of it.
pub record IsSpawned {W : Type 0} (process : ChildProcess W) (bin : Text) (config : Option Text)
    (args : List Text) (w : W) (r : Result Text × W) : Type 0 where
  pub options : ExecOptions
  pub run : Run
  pub ran : process.exec_file bin args options w ≡ (run, r.1)
  pub ends : (1 ≤ options.timeout) × (options.timeout < infinity)
  pub killed : options.kill_signal ≡ codes "SIGKILL"
  pub environment : options.docker_config ≡ config
  pub outcome : IsOutcome bin args run r.0

-- The binary is run once, with the arguments as they are, SIGKILL as the signal, and a timeout of at least
-- 1 that is finite, whatever the variable holds. A run without an error gives its output; an error keeps
-- the whole standard error, and its message is at most 4128 units longer than the binary, the arguments
-- and the message of the system together.
pub spawn_cmd-IsSpawned :
    {W : Type 0} (process : ChildProcess W) (bin : Text) (config : Option Text) (args : List Text)
    (w : W)
    → IsSpawned process bin config args w (spawn_cmd process bin config args w)
unfolding spawn_cmd
spawn_cmd-IsSpawned process bin config args w =
    let options = exec_options process.timeout_variable config in
    let run = (process.exec_file bin args options w).0 in
    record {
      options = options;
      run = run;
      ran = refl;
      ends = get_default_timeout_bounds process.timeout_variable;
      killed = refl;
      environment = refl;
      outcome = settle-IsOutcome bin args run.error_message run refl;
    }
