-- ===== src/Cli/Endings.antt =====
-- How the action of the command line ends.
use dockerfile_x.Common.{
  ℕ, ◌≡◌, refl, ap, Option, none, some, [], true, false, Text, codes, same, Bool-cases, inl, inr,
}
use dockerfile_x.Errors.{Error, Thrown, plain, Result, ok, err}
use dockerfile_x.Exec.{
  Outcome, done, fails, out_of_fuel, pure, throw, call, outcome, ◌>>=◌, continue,
}
use dockerfile_x.Limits.Agreement.{refusal, get_max_include_depth_from_env-err}
use dockerfile_x.Load.{root_load_dockerfile}
use dockerfile_x.Load.Totality.{root_load_dockerfile_total}
use dockerfile_x.Packages.{Packages}
use dockerfile_x.Path.{is_absolute, join_paths}
use dockerfile_x.PostProcess.{truthy}
use dockerfile_x.Source.{SourceApi}
use dockerfile_x.Cli.{
  CommandLine, Process, Ending, printed, written, reported, misconfigured, action, finish,
  compile_at, input_file, save_stdin, emit_output, report, choose_depth, or_default, absolute_path,
  temp_file_path, get_data_from_stdin, from_file,
}
use dockerfile_x.Cli.Payload.{JsonObject, payload}

or_default-err : (r : Result (Option ℕ)) (e : Thrown) → or_default r ≡ err e → r ≡ err e
or_default-err (ok none) e h = cc
or_default-err (ok (some n)) e h = cc
or_default-err (err z) e h = cc

choose_depth-err :
    (flag : Option ℕ) (variable : Option Text) (e : Thrown)
    → choose_depth flag variable ≡ err e
    → (raw : Text) × (flag ≡ none) × (variable ≡ some raw) × (e ≡ plain (refusal raw))
unfolding choose_depth
choose_depth-err (some n) variable e h = cc
choose_depth-err none variable e h =
    let (raw, given, refused) =
      get_max_include_depth_from_env-err variable e (or_default-err _ e h) in
    (raw, refl, given, refused)

-- The path of a file that is given by `file`, in a build context.
pub data IsPlaced (context file : Text) : Text → Type 0 where
  as_given : is_absolute file ≡ true → IsPlaced context file file
  below_context : is_absolute file ≡ false → IsPlaced context file (join_paths context file)

absolute_path-IsPlaced : (context file : Text) → IsPlaced context file (absolute_path context file)
unfolding absolute_path
absolute_path-IsPlaced context file = elim (Bool-cases (is_absolute file)) [
  | inl e ↦ rw e (as_given e)
  | inr e ↦ rw e (below_context e)
]

module _ (api : SourceApi) (p : Packages) (process : Process api.World) where
  open process use {buffer_to_string, stdin_chunks}

  -- The file that is loaded, and the world behind: the one that is named, or one that the standard input was
  -- written to.
  pub data IsInput (file : Text) (w : api.World) : Text → api.World → Type 0 where
    named : same file (codes "-") ≡ false → IsInput file w file w
    piped :
        (v : api.World)
        → same file (codes "-") ≡ true
        → process.write_file
            (temp_file_path api p process)
            (get_data_from_stdin buffer_to_string [] (stdin_chunks w).0)
            (stdin_chunks w).1
          ≡ (ok tt, v)
        → IsInput file w (temp_file_path api p process) v

  -- What is loaded: the file, its path, the depth, and the world from which it is loaded.
  pub record IsLoaded (cmd : CommandLine) (w : api.World) (path : Text) (depth : ℕ) (v : api.World)
      : Type 0 where
    pub file : Text
    pub input : IsInput cmd.file w file v
    pub placed : IsPlaced cmd.context file path
    pub chosen : choose_depth cmd.max_include_depth process.depth_variable ≡ ok depth

  -- How the options and the environment explain an ending, and the world that it leaves.
  pub data IsExplained (cmd : CommandLine) (w : api.World) : Ending → api.World → Type 0 where
    to_stdout :
        (path : Text) (depth : ℕ) (v x : api.World) (s : Text)
        → IsLoaded cmd w path depth v
        → root_load_dockerfile api p path cmd.context depth v ≡ (done s, x)
        → truthy cmd.output ≡ none
        → IsExplained cmd w (printed s) x
    to_file :
        (path : Text) (depth : ℕ) (v x y : api.World) (s output : Text)
        → IsLoaded cmd w path depth v
        → root_load_dockerfile api p path cmd.context depth v ≡ (done s, x)
        → truthy cmd.output ≡ some output
        → process.write_file output s x ≡ (ok tt, y)
        → IsExplained cmd w (written output s) y
    by_error :
        (path : Text) (depth : ℕ) (v x : api.World) (e : Error) (fields : JsonObject)
        → IsLoaded cmd w path depth v
        → root_load_dockerfile api p path cmd.context depth v ≡ (fails e, x)
        → payload e ≡ some fields
        → IsExplained cmd w (reported fields) x
    by_limit :
        (file raw : Text) (v : api.World)
        → IsInput cmd.file w file v
        → cmd.max_include_depth ≡ none
        → process.depth_variable ≡ some raw
        → IsExplained cmd w (misconfigured (refusal raw)) v

  -- The outcomes of the action: it ends in a way that is explained, or throws.
  abbrev pub Ends : CommandLine → api.World → Outcome Ending × api.World → Type 0
  Ends cmd w (done ending, x) = IsExplained cmd w ending x
  Ends cmd w (fails e, x) = Unit
  Ends cmd w (out_of_fuel, x) = ⊥

  module _ (cmd : CommandLine) (w : api.World) (path : Text) (depth : ℕ) (v : api.World)
      (loaded : IsLoaded cmd w path depth v) where
    written_Ends :
        (r : Result (Unit {0})) (output s : Text) (x y : api.World)
        → root_load_dockerfile api p path cmd.context depth v ≡ (done s, x)
        → truthy cmd.output ≡ some output
        → process.write_file output s x ≡ (r, y)
        → Ends cmd w (continue (outcome r) (λ _. pure (written output s)) y)
    unfolding pure
    written_Ends (ok u) output s x y h o k = to_file path depth v x y s output loaded h o k
    written_Ends (err e) output s x y h o k = tt

    emit_output-Ends :
        (output : Option Text) (s : Text) (x : api.World)
        → root_load_dockerfile api p path cmd.context depth v ≡ (done s, x)
        → truthy cmd.output ≡ output
        → Ends cmd w (emit_output api p process output s x)
    unfolding emit_output pure call ◌>>=◌
    emit_output-Ends none s x h o = to_stdout path depth v x s loaded h o
    emit_output-Ends (some output) s x h o =
        written_Ends (process.write_file output s x).0 output s x (process.write_file output s x).1
          h o refl

    report-Ends :
        (e : Error) (o : Option JsonObject) (x : api.World)
        → root_load_dockerfile api p path cmd.context depth v ≡ (fails e, x)
        → payload e ≡ o
        → Ends cmd w (report api p process e o x)
    unfolding report pure throw
    report-Ends e none x h o = tt
    report-Ends e (some fields) x h o = by_error path depth v x e fields loaded h o

    finish-Ends :
        (r : Outcome Text) (x : api.World)
        → root_load_dockerfile api p path cmd.context depth v ≡ (r, x)
        → Ends cmd w (finish api p process (truthy cmd.output) (r, x))
    unfolding finish
    finish-Ends (done s) x h = emit_output-Ends (truthy cmd.output) s x h refl
    finish-Ends (fails e) x h = report-Ends e (payload e) x h refl
    finish-Ends out_of_fuel x h =
        absurd (root_load_dockerfile_total api p path cmd.context depth v (ap (λ y. y.0) h))

  module _ (cmd : CommandLine) (w : api.World) (file : Text) (v : api.World)
      (input : IsInput cmd.file w file v) where
    compile_at-Ends :
        (path : Text) (r : Result ℕ)
        → IsPlaced cmd.context file path
        → choose_depth cmd.max_include_depth process.depth_variable ≡ r
        → Ends cmd w (compile_at api p process cmd path r v)
    unfolding compile_at pure
    compile_at-Ends path (ok depth) placed h =
        finish-Ends cmd w path depth v
          (record { file = file; input = input; placed = placed; chosen = h })
          (root_load_dockerfile api p path cmd.context depth v).0
          (root_load_dockerfile api p path cmd.context depth v).1 refl
    compile_at-Ends path (err e) placed h =
        let (raw, unset, given, refused) =
          choose_depth-err cmd.max_include_depth process.depth_variable e h in
        rw refused (by_limit file raw v input unset given)

    from_file-Ends : Ends cmd w (from_file api p process cmd file v)
    unfolding from_file
    from_file-Ends =
        compile_at-Ends (absolute_path cmd.context file) _ (absolute_path-IsPlaced cmd.context file)
          refl

  saved_Ends :
      (cmd : CommandLine) (w : api.World) (r : Result (Unit {0})) (v : api.World)
      → same cmd.file (codes "-") ≡ true
      → process.write_file
          (temp_file_path api p process)
          (get_data_from_stdin buffer_to_string [] (stdin_chunks w).0)
          (stdin_chunks w).1
        ≡ (r, v)
      → Ends cmd w (
          (continue (outcome r) (λ _. pure (temp_file_path api p process))
              >>= from_file api p process cmd)
            v)
  unfolding pure ◌>>=◌
  saved_Ends cmd w (ok u) v e h =
      from_file-Ends cmd w (temp_file_path api p process) v (piped v e h)
  saved_Ends cmd w (err z) v e h = tt

  -- The action never runs out of fuel. Where it ends without throwing, its ending is the compiled text of the file
  -- that is given, to the output that was chosen, or the report of the error of the load, each at the depth that the
  -- options and the environment give, or the refusal of the environment's limit where there is no option.
  pub action-Ends : (cmd : CommandLine) (w : api.World) → Ends cmd w (action api p process cmd w)
  unfolding action input_file save_stdin pure call ◌>>=◌
  action-Ends cmd w = elim (Bool-cases (same cmd.file (codes "-"))) [
    | inl e ↦ rw e (saved_Ends cmd w _ _ e refl)
    | inr e ↦ rw e (from_file-Ends cmd w cmd.file w (named e))
  ]
