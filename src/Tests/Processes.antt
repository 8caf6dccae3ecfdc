-- ===== src/Tests/Processes.antt =====
-- Processes that end, and limits on their time.
use dockerfile_x.Common.{◌≡◌, refl, none, some, List, [], ◌∷◌, Text, codes}
use dockerfile_x.Errors.{err, command_failed}
use dockerfile_x.Spawn.{ChildProcess, get_default_timeout, spawn_cmd}
use dockerfile_x.Spawn.Bounded.{IsSpawned, spawn_cmd-IsSpawned}

abbrev child_process : ChildProcess (List Text)
child_process = record {
  timeout_variable = some (codes " 250ms");
  exec_file = λ bin args options w. (
    record {
      error_message = some (codes "Command failed");
      stdout = [];
      stderr = codes "fatal: no";
    },
    bin ∷ w,
  );
}

-- Text behind the number is passed over; a sign or an exponent is not read as Number() reads it.
timeouts :
    (get_default_timeout (some (codes " 250ms")) ≡ 250)
    × (get_default_timeout (some (codes "0")) ≡ 300000)
    × (get_default_timeout (some (codes "-5")) ≡ 300000)
    × (get_default_timeout (some (codes "1e3")) ≡ 1)
unfolding get_default_timeout
timeouts = (refl, refl, refl, refl)

failed : spawn_cmd child_process (codes "git") none (codes "clone" ∷ codes "u" ∷ []) [] ≡ (
  err (command_failed (codes "fatal: no") (codes "git clone u failed: Command failed\nfatal: no")),
  codes "git" ∷ [],
)
unfolding spawn_cmd
failed = refl

spawn_cmd-IsSpawned_example :
    IsSpawned child_process
      (codes "git")
      none
      (codes "clone" ∷ [])
      []
      (spawn_cmd child_process (codes "git") none (codes "clone" ∷ []) [])
spawn_cmd-IsSpawned_example =
    spawn_cmd-IsSpawned child_process (codes "git") none (codes "clone" ∷ []) []
