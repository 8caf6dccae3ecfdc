-- ===== src/Tests/Loading.antt =====
-- Compiling the files of the test world.
use dockerfile_x.Common.{◌≡◌, ◌≢◌, refl, [], ◌∷◌, ◌++◌, Text, codes, join, newline}
use dockerfile_x.Exec.{done, fails, out_of_fuel, pure, throw, lift, call, ◌>>=◌}
use dockerfile_x.Errors.{include_cycle}
use dockerfile_x.Load.{root_load_dockerfile}
use dockerfile_x.Load.Totality.{root_load_dockerfile_total}
use dockerfile_x.Load.Guard.{IsReport, root_load_dockerfile-IsReport}
use dockerfile_x.Tests.World.{packages, api, parse, digest, read_file}

-- The file that includes itself is reported.
loop_cycle :
    (root_load_dockerfile api packages (codes "./loop") [] 32 tt).0
    ≡ fails (include_cycle (codes "./loop") (codes "./loop" ∷ codes "./loop" ∷ []))
unfolding root_load_dockerfile pure throw lift call ◌>>=◌ parse digest read_file
loop_cycle = refl

abbrev attributes_of_base : Text
attributes_of_base = codes "file=\"./base\" includedBy=\"./app\" includeType=\"from\""

-- A stage built from another file: the digests of the test world are constant.
app_compiled :
    (root_load_dockerfile api packages (codes "./app") [] 32 tt).0
    ≡ done (
        join newline (
          (codes "# DOCKERFILE-X:START " ++ attributes_of_base)
          ∷ codes "FROM debian AS baseaaaaaa--final-stage"
          ∷ codes "FROM baseaaaaaa--final-stage AS baseaaaaaa"
          ∷ codes "RUN apt"
          ∷ (codes "# DOCKERFILE-X:END " ++ attributes_of_base)
          ∷ codes "FROM baseaaaaaa AS final-stage"
          ∷ codes "RUN make"
          ∷ []
          ∷ []))
unfolding root_load_dockerfile pure throw lift call ◌>>=◌ parse digest read_file join
app_compiled = refl

root_load_dockerfile_total_example :
    (root_load_dockerfile api packages (codes "./loop") [] 32 tt).0 ≢ out_of_fuel
root_load_dockerfile_total_example =
    root_load_dockerfile_total api packages (codes "./loop") [] 32 tt

root_load_dockerfile-IsReport_example :
    IsReport 32 (include_cycle (codes "./loop") (codes "./loop" ∷ codes "./loop" ∷ []))
root_load_dockerfile-IsReport_example =
    root_load_dockerfile-IsReport api packages (codes "./loop") [] 32 tt _ loop_cycle
