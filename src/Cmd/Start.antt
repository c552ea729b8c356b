-- ===== src/Cmd/Start.antt =====
-- cmd/bonk/main.go and cmd/holos/main.go: the flags, where the configuration is looked for, and the
-- exit of the process. Packages cobra and viper are known by the calls that they get.
use bonk.Base.{ℕ, String, List, [], ◌∷◌, ◌++◌, Option, none, some, ◌==◌, if◌then◌else◌}
use bonk.Errors.{Error}

-- A flag with its default: its name, its letter and its value.
pub data Flag : Type 0 where
  string_flag : String → String → String → Flag
  int_flag : String → String → ℕ → Flag

-- The calls of package viper.
pub data ConfigCall : Type 0 where
  set_config_file add_config_path set_config_name : String → ConfigCall
  automatic_env read_in_config : ConfigCall

unfoldable pub bonk_flags : List Flag
bonk_flags = string_flag "config" "c" "" ∷ int_flag "concurrency" "j" 100 ∷ []

unfoldable pub holos_flags : List Flag
holos_flags = string_flag "platform" "p" "platform" ∷ int_flag "concurrency" "j" 100 ∷ []

-- The default of a flag of texts. The variable has it until the flags are parsed.
unfoldable pub string_default : String → List Flag → String
string_default name [] = ""
string_default name (string_flag n letter value ∷ flags) =
    if n == name then value else string_default name flags
string_default name (int_flag n letter value ∷ flags) = string_default name flags

-- The configuration of `bonk`, by the value of `cfgFile`.
unfoldable pub config_calls : String → List ConfigCall
config_calls cfg_file =
    (if cfg_file == ""
      then add_config_path "." ∷ set_config_name ".bonk.yaml" ∷ []
      else set_config_file cfg_file ∷ [])
    ++ (automatic_env ∷ read_in_config ∷ [])

-- `init` of `bonk`, which runs before the flags are parsed.
unfoldable pub init_bonk : List ConfigCall
unfolding bonk_flags string_default config_calls
init_bonk = config_calls (string_default "config" bonk_flags)

-- `main`: the status with which the process exits, by the error of the command.
unfoldable pub exit_status : Option Error → ℕ
exit_status none = 0
exit_status (some e) = 1
