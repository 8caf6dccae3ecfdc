-- ===== src/Cli/Exit.antt =====
-- How the process of the command line ends, and what it leaves behind.
use dockerfile_x.Common.{◌≡◌, false, Text, codes, same}
use dockerfile_x.Exec.{Outcome, done, continue}
use dockerfile_x.Packages.{Packages}
use dockerfile_x.Source.{SourceApi}
use dockerfile_x.Cli.{CommandLine, Process, Ending, action, save_stdin, from_file, run_process}
use dockerfile_x.Cli.Endings.{Ends}

module _ (api : SourceApi) (p : Packages) (process : Process api.World) where
  -- The ending and the world of the process, by those of its action.
  pub record Exits (cmd : CommandLine) (w : api.World) : Type 0 where
    pub ends : Ends api p process cmd w (action api p process cmd w)
    pub like_action : (run_process api p process cmd w).0 ≡ (action api p process cmd w).0
    pub removed :
        (path : Text)
        → cmd.file ≡ codes "-"
        → (save_stdin api p process w).0 ≡ done path
        → (run_process api p process cmd w).1
          ≡ (process.unlink path (action api p process cmd w).1).1
    pub left :
        same cmd.file (codes "-") ≡ false
        → (run_process api p process cmd w).1 ≡ (action api p process cmd w).1

  module _ (cmd : CommandLine) where
    abbrev acted : Outcome Text → api.World → Outcome Ending × api.World
    acted r v = continue r (from_file api p process cmd) v
