-- ===== src/Instruction.antt =====
-- The instruction objects that the passes exchange, src/lib/generateRawInstruction.js and
-- src/utils/isJsonArrayOfString.js.
use dockerfile_x.Common.{ℕ, Bool, false, ◌++◌, Text, codes, join, if◌then◌else◌, same}
use dockerfile_x.Errors.{Result, ok, err, type_error}
use dockerfile_x.Packages.{Packages, Args, string, array, object}

-- A command behind `parseDockerfile`, which sets `raw` on every command.
pub record Instruction : Type 0 where
  pub name : Text
  pub args : Args
  pub lineno : ℕ
  pub raw : Text

-- The only caller passes `instruction.raw`, a string: its property `rest` is undefined, `JSON.parse`
-- throws on that, and the handler returns false.
unfoldable pub is_json_array_of_string : Text → Bool
is_json_array_of_string cmd = false

module _ (p : Packages) where
  -- `join` is not a method of an object that is no array.
  unfoldable pub generate_raw_instruction : Text → Args → Text → Result Text
  unfolding is_json_array_of_string join
  generate_raw_instruction name (string args) raw = ok (name ++ codes " " ++ args)
  generate_raw_instruction name (array args) raw =
      if is_json_array_of_string raw
      then ok (name ++ codes " " ++ p.json_stringify args)
      else ok (name ++ codes " " ++ join (codes " ") args)
  generate_raw_instruction name object raw =
      if is_json_array_of_string raw then ok (name ++ codes " ") else err type_error

  -- `instruction.args = args; instruction.raw = generateRawInstruction(instruction)`
  unfoldable pub with_args : Instruction → Args → Result Instruction
  unfolding generate_raw_instruction
  with_args i args = elim (generate_raw_instruction i.name args i.raw) [
    | ok raw ↦ ok (record i { args = args; raw = raw })
    | err e ↦ err e
  ]

abbrev pub is_from : Instruction → Bool
is_from i = same i.name (codes "FROM")
