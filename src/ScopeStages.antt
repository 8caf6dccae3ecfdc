-- ===== src/ScopeStages.antt =====
-- src/core/scopeStages.js: the stages of an included file get the slug of the file as a prefix. The
-- pass works on the instructions in place; here it returns them.
pub mod Updates
pub mod Kept
pub mod Reference
pub mod Declared
pub mod Copies
pub mod ExecForm
use dockerfile_x.Common.{
  ◌||◌, Option, none, some, List, [], ◌∷◌, ◌++◌, Text, codes, if◌then◌else◌, same, starts_with,
  ends_with, replace_first, has_infix,
}
use dockerfile_x.Errors.{Result, ok, err, type_error, ◌>>=◌}
use dockerfile_x.Packages.{Packages, Args, string, array, object}
use dockerfile_x.Instruction.{Instruction, with_args}
use dockerfile_x.Regex.{as_match, include_from, mount_match}
use dockerfile_x.Names.{generate_file_path_slug}

abbrev cons_option : Text → Option (List Text) → Option (List Text)
cons_option a none = none
cons_option a (some l) = some (a ∷ l)

-- `args[args.indexOf(old)] = new`, or `none` where no argument is equal to `old`.
unfoldable pub replace_arg : Text → Text → List Text → Option (List Text)
unfolding same
replace_arg old new [] = none
replace_arg old new (a ∷ l) =
    let later = cons_option a (replace_arg old new l) in
    if same a old then some (new ∷ l) else later

module _ (p : Packages) where
  -- One round of the first loop: the stage name of a FROM, and the FROM with a name if it had none.
  -- A method of a string that is called on another value throws.
  unfoldable pub identify : Instruction → Result (List Text × Instruction)
  unfolding same as_match include_from with_args
  identify i =
      if same i.name (codes "FROM")
      then elim i.args [
        | string args ↦ elim (as_match args) [
          | some name ↦ ok (name ∷ [], i)
          | none ↦ if include_from args then ok ([], i) else do
            j ← with_args p i (string (args ++ codes " AS final-stage"))
            ok (codes "final-stage" ∷ [], j)
        ]
        | array _ ↦ err type_error
        | object ↦ err type_error
      ]
      else ok ([], i)

  -- The first loop: the stage names in order, and the instructions.
  unfoldable pub identify_all : List Instruction → Result (List Text × List Instruction)
  unfolding identify
  identify_all [] = ok ([], [])
  identify_all (i ∷ is) = do
    (names, j) ← identify i
    (more, js) ← identify_all is
    ok (names ++ more, j ∷ js)

  module _ (prefix stage_name : Text) where
    abbrev scoped_name : Text
    scoped_name = prefix ++ (codes "--" ++ stage_name)

    -- "Update AS instruction": a method of a string that is called on another value throws.
    unfoldable pub update_as_args : Instruction → Args → Result Instruction
    unfolding ends_with replace_first with_args
    update_as_args i (string args) =
        if ends_with (codes "AS " ++ stage_name) args
        then with_args p i
            (string (replace_first (codes "AS " ++ stage_name) (codes "AS " ++ scoped_name) args))
        else ok i
    update_as_args i (array _) = err type_error
    update_as_args i object = err type_error

    unfoldable pub update_as : Instruction → Result Instruction
    unfolding same update_as_args
    update_as i = if same i.name (codes "FROM") then update_as_args i i.args else ok i

    -- "Update references in FROM instruction": `asMatch[1]` throws where nothing matched.
    unfoldable pub with_image : Instruction → Option Text → Result Instruction
    unfolding with_args
    with_image i none = err type_error
    with_image i (some alias) = with_args p i (string (scoped_name ++ (codes " AS " ++ alias)))

    unfoldable pub update_image_args : Instruction → Args → Result Instruction
    unfolding starts_with as_match with_image
    update_image_args i (string args) =
        if starts_with stage_name args then with_image i (as_match args) else ok i
    update_image_args i (array _) = err type_error
    update_image_args i object = err type_error

    unfoldable pub update_image : Instruction → Result Instruction
    unfolding same update_image_args
    update_image i = if same i.name (codes "FROM") then update_image_args i i.args else ok i

    -- "Update --from= arguments": an assignment to a unit of a string does nothing.
    unfoldable pub with_replaced : Instruction → Option (List Text) → Result Instruction
    unfolding with_args
    with_replaced i none = ok i
    with_replaced i (some args) = with_args p i (array args)

    unfoldable pub update_copy_args : Instruction → Args → Result Instruction
    unfolding has_infix with_args replace_arg with_replaced
    update_copy_args i (string args) =
        if has_infix (codes "--from=" ++ stage_name) args then with_args p i (string args) else ok i
    update_copy_args i (array args) =
        with_replaced i
          (replace_arg (codes "--from=" ++ stage_name) (codes "--from=" ++ scoped_name) args)
    update_copy_args i object = err type_error

    unfoldable pub update_copy : Instruction → Result Instruction
    unfolding same update_copy_args
    update_copy i =
        if same i.name (codes "COPY") || same i.name (codes "ADD")
        then update_copy_args i i.args
        else ok i

    -- The `from=` of a `--mount=` option of RUN. An array of arguments has no method `match`.
    unfoldable pub with_mount : Instruction → Option (Text × Text × Text) → Result Instruction
    unfolding with_args same
    with_mount i none = ok i
    with_mount i (some (before, name, after)) =
        if same name stage_name
        then with_args p i (string (before ++ (scoped_name ++ after)))
        else ok i

    unfoldable pub update_run_args : Instruction → Args → Result Instruction
    unfolding mount_match with_mount
    update_run_args i (string args) = with_mount i (mount_match args)
    update_run_args i (array _) = err type_error
    update_run_args i object = err type_error

    unfoldable pub update_run : Instruction → Result Instruction
    unfolding same update_run_args
    update_run i = if same i.name (codes "RUN") then update_run_args i i.args else ok i

    -- The body of the inner loop of the second pass.
    unfoldable pub rescope : Instruction → Result Instruction
    unfolding update_as update_image update_copy update_run
    rescope i = update_as i >>= update_image >>= update_copy >>= update_run

    unfoldable pub rescope_all : List Instruction → Result (List Instruction)
    unfolding rescope
    rescope_all [] = ok []
    rescope_all (i ∷ is) = do j ← rescope i; js ← rescope_all is; ok (j ∷ js)

  -- The outer loop of the second pass.
  unfoldable pub rescope_names : Text → List Text → List Instruction → Result (List Instruction)
  unfolding rescope_all
  rescope_names prefix [] is = ok is
  rescope_names prefix (name ∷ names) is = do
    js ← rescope_all prefix name is
    rescope_names prefix names js

  unfoldable pub scope_stages : List Instruction → Text → Result (List Instruction)
  unfolding identify_all rescope_names generate_file_path_slug
  scope_stages instructions relative_file_path = do
    (names, is) ← identify_all instructions
    rescope_names (generate_file_path_slug p relative_file_path) names is
