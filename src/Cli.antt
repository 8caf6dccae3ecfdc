-- ===== src/Cli.antt =====
-- src/cli/program.js: the action of the command line, from the options to the output or the error.
pub mod Payload
pub mod Reports
pub mod Endings
pub mod Exit
use dockerfile_x.Common.{
  ℕ, Bool, true, false, Option, none, some, List, [], ◌∷◌, ◌++◌, Text, codes, if◌then◌else◌, same,
}
use dockerfile_x.Errors.{Error, thrown, Result, ok, err, plain}
use dockerfile_x.Exec.{Exec, Outcome, done, fails, out_of_fuel, pure, throw, call, ◌>>=◌, ◌>>◌}
use dockerfile_x.Limits.{default_max_include_depth, get_max_include_depth_from_env}
use dockerfile_x.Load.{root_load_dockerfile}
use dockerfile_x.Packages.{Packages}
use dockerfile_x.Path.{is_absolute, join_paths}
use dockerfile_x.PostProcess.{truthy}
use dockerfile_x.Source.{SourceApi}
use Payload.{JsonObject, payload}

-- The options, parsed by `commander`. The default of `file` depends on the terminal.
pub record CommandLine : Type 0 where
  pub context : Text
  pub file : Text
  pub output : Option Text
  pub max_include_depth : Option ℕ

-- What the action reads of the process: two variables, `os.tmpdir()`, `Date.now()` as a text, the chunks of the
-- standard input and how a chunk becomes a text, and the calls that write and remove a file.
pub record Process (W : Type 0) : Type 0 where
  pub tmpdir_variable : Option Text
  pub depth_variable : Option Text
  pub tmpdir : Text
  pub now : Text
  pub buffer_to_string : List ℕ → Text
  pub stdin_chunks : W → List (List ℕ) × W
  pub write_file : Text → Text → W → Result (Unit {0}) × W
  pub unlink : Text → W → Result (Unit {0}) × W

-- src/utils/getDataFromStdin.js: `inputData += data` for each chunk.
unfoldable pub get_data_from_stdin : (List ℕ → Text) → Text → List (List ℕ) → Text
get_data_from_stdin decode input_data [] = input_data
get_data_from_stdin decode input_data (data_chunk ∷ chunks) =
    get_data_from_stdin decode (input_data ++ decode data_chunk) chunks

-- How the action ends: the text on the standard output, or in the file whose path comes first, a payload and exit code 2, or a
-- message on the standard error and exit code 1.
pub data Ending : Type 0 where
  printed : Text → Ending
  written : Text → Text → Ending
  reported : JsonObject → Ending
  misconfigured : Text → Ending

-- `process.exitCode`, where the process is not stopped by an error.
abbrev pub exit_code : Ending → ℕ
exit_code (printed s) = 0
exit_code (written output s) = 0
exit_code (reported fields) = 2
exit_code (misconfigured message) = 1

abbrev pub or_value : Option Text → Text → Text
or_value none d = d
or_value (some s) d = s

-- `cmd.maxIncludeDepth ?? getMaxIncludeDepthFromEnv() ?? DEFAULT_MAX_INCLUDE_DEPTH`
abbrev pub or_default : Result (Option ℕ) → Result ℕ
or_default (ok none) = ok default_max_include_depth
or_default (ok (some n)) = ok n
or_default (err e) = err e

unfoldable pub choose_depth : Option ℕ → Option Text → Result ℕ
unfolding get_max_include_depth_from_env
choose_depth (some n) variable = ok n
choose_depth none variable = or_default (get_max_include_depth_from_env variable)

-- `path.isAbsolute(file) ? file : path.join(dockerContext, file)`
abbrev pub absolute_path : Text → Text → Text
unfolding is_absolute join_paths
absolute_path context file = if is_absolute file then file else join_paths context file

module _ (api : SourceApi) (p : Packages) (process : Process api.World) where
  open api use {World}
  open process use {
    tmpdir_variable, depth_variable, tmpdir, now, buffer_to_string, stdin_chunks, write_file,
    unlink,
  }

  -- The path of the file that holds the standard input.
  abbrev pub temp_file_path : Text
  unfolding join_paths truthy
  temp_file_path =
      join_paths (or_value (truthy tmpdir_variable) tmpdir) (codes "DockerfileX_" ++ now)

  unfoldable pub save_stdin : Exec World Text
  unfolding temp_file_path get_data_from_stdin pure call ◌>>=◌
  save_stdin w =
      let (chunks, w') = stdin_chunks w in
      let stdin = get_data_from_stdin buffer_to_string [] chunks in
      (call (write_file temp_file_path stdin) >> pure temp_file_path) w'

  -- The file to load: `-` is the standard input.
  abbrev pub input_file : Text → Exec World Text
  unfolding save_stdin pure same
  input_file file = if same file (codes "-") then save_stdin else pure file

  abbrev pub emit_output : Option Text → Text → Exec World Ending
  unfolding pure call ◌>>=◌
  emit_output none processed = pure (printed processed)
  emit_output (some output) processed = do
    call (write_file output processed)
    pure (written output processed)

  -- The `catch` around the load.
  abbrev pub report : Error → Option JsonObject → Exec World Ending
  unfolding pure throw
  report e none = throw e
  report e (some fields) = pure (reported fields)

  abbrev pub finish : Option Text → Outcome Text × World → Outcome Ending × World
  unfolding report emit_output payload
  finish output (done processed, w) = emit_output output processed w
  finish output (fails e, w) = report e (payload e) w
  finish output (out_of_fuel, w) = (out_of_fuel, w)

  -- The message of what `getMaxIncludeDepthFromEnv` throws.
  abbrev pub message_of : Error → Text
  message_of (thrown (plain message)) = message
  message_of _ = []

  abbrev pub compile_at : CommandLine → Text → Result ℕ → Exec World Ending
  unfolding finish root_load_dockerfile pure
  compile_at cmd path (err e) w = pure (misconfigured (message_of (thrown e))) w
  compile_at cmd path (ok depth) w =
      finish (truthy cmd.output) (root_load_dockerfile api p path cmd.context depth w)

  -- Behind the file to load.
  abbrev pub from_file : CommandLine → Text → Exec World Ending
  unfolding compile_at absolute_path choose_depth
  from_file cmd file =
      compile_at cmd (absolute_path cmd.context file)
        (choose_depth cmd.max_include_depth depth_variable)

  unfoldable pub action : CommandLine → Exec World Ending
  unfolding from_file input_file
  action cmd = do file ← input_file cmd.file; from_file cmd file

  -- What the handler of `exit` does, where there is one: a failure to remove the file is ignored.
  abbrev pub at_exit : Option Text → World → World
  at_exit none w = w
  at_exit (some temp) w = (unlink temp w).1

  -- The file that the handler removes: the one that was written for the standard input.
  abbrev pub temp_of : Text → Text → Option Text
  unfolding same
  temp_of file path = if same file (codes "-") then some path else none

  abbrev pub exit_after : Option Text → Outcome Ending × World → Outcome Ending × World
  exit_after temp (ending, w) = (ending, at_exit temp w)

  abbrev pub run_from : CommandLine → Outcome Text × World → Outcome Ending × World
  unfolding from_file temp_of
  run_from cmd (done file, w) = exit_after (temp_of cmd.file file) (from_file cmd file w)
  run_from cmd (fails e, w) = (fails e, w)
  run_from cmd (out_of_fuel, w) = (out_of_fuel, w)

  -- The process: the action, and the handler of `exit`, which runs however the action ends.
  unfoldable pub run_process : CommandLine → World → Outcome Ending × World
  unfolding run_from input_file
  run_process cmd w = run_from cmd (input_file cmd.file w)
