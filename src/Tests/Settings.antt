-- ===== src/Tests/Settings.antt =====
-- Runs of the providers of configuration.
use scaffold_go.Base.{ℕ, String, ◌≡◌, refl, false, Option, none, some, [], ◌∷◌, ◌++◌, arith}
use scaffold_go.Go.{pos, Error, external}
use scaffold_go.Context.{EnvConfigProvider}
use scaffold_go.Platform.{ok, err}
use scaffold_go.Bindings.{format_int}
use scaffold_go.Config.Parse.{Conversions}
use scaffold_go.Config.Provider.{Refines}
use scaffold_go.Config.Env
use scaffold_go.Config.Map
use scaffold_go.Config.Map.{MapConfigProvider}
use scaffold_go.Config.File
use scaffold_go.Config.File.{
  FileConfigProvider, FileSystem, file_read, read_key, trim_one_trailing_newline,
}
use scaffold_go.Config.File.Confined.{read_key_confined, trim_one_trailing_newline-append}
use scaffold_go.Config.Filepath.{is_rooted, elements, render}
use scaffold_go.Config.Filepath.Child.{IsFileName}
use scaffold_go.Config.Contract.{provider-Refines}
use scaffold_go.Config.Numbers.{AllRead, int-format_int}
use scaffold_go.Config.Filepath.{ends_with}
use scaffold_go.Config.File.{trim_one_trailing_newline}
use scaffold_go.Tests.Service.{log}

-- No text is a float or a duration.
abbrev conversions : Conversions ℕ
conversions = record { parse_float = λ v. err (external 1); parse_duration = λ v. err (external 2) }

abbrev environment : EnvConfigProvider
environment = record { logger = some log }

abbrev variables : String → Option String
variables key = none

abbrev settings : MapConfigProvider
settings = record { values = some (("port", format_int (pos 8080)) ∷ []); logger = some log }

abbrev mounted : FileConfigProvider
mounted = record { dir = "/etc/../run/secrets/"; logger = none }

abbrev files : FileSystem
files = record { read_file = λ path. ok "secret\n"; is_not_exist = λ e. false }

provider-Refines_example :
    Refines conversions (some log) (λ key. ok none) (Env.provider environment variables conversions)
    × Refines conversions
        (some log)
        (λ key. ok (Map.lookup settings key))
        (Map.provider settings conversions)
    × Refines conversions none
        (File.read_key mounted files)
        (File.provider mounted files conversions)
provider-Refines_example = provider-Refines conversions environment variables settings mounted files

-- The port, in the environment and as a mounted file.
abbrev with_port : String → Option String
with_port key = some (format_int (pos 8080))

abbrev port_files : FileSystem
port_files = record { read_file = λ path. ok (format_int (pos 8080)); is_not_exist = λ e. false }

int-format_int_example :
    AllRead
      (pos 8080)
      (Env.int environment with_port "port")
      (Env.int_or environment with_port "port" (pos 0))
      (Env.int64 environment with_port "port")
      (Env.int64_or environment with_port "port" (pos 0))
    × AllRead
        (pos 8080)
        (Map.int settings "port")
        (Map.int_or settings "port" (pos 0))
        (Map.int64 settings "port")
        (Map.int64_or settings "port" (pos 0))
    × AllRead
        (pos 8080)
        (File.int mounted port_files "port")
        (File.int_or mounted port_files "port" (pos 0))
        (File.int64 mounted port_files "port")
        (File.int64_or mounted port_files "port" (pos 0))
unfolding Map.lookup File.read_key File.trim_one_trailing_newline format_int
int-format_int_example =
    int-format_int environment with_port settings mounted port_files "port" (pos 8080) (pos 0)
      (omega arith) refl refl refl

-- The directory comes down to /run/secrets.
mounted_path :
    render (is_rooted mounted.dir) (elements mounted.dir ++ "token" ∷ []) ≡ "/run/secrets/token"
unfolding elements
mounted_path = refl

read_key_confined_example :
    (IsFileName "token"
      → (fs : FileSystem)
      → read_key mounted fs "token"
        ≡ file_read mounted fs "token"
            (fs.read_file (render (is_rooted mounted.dir) (elements mounted.dir ++ "token" ∷ []))))
    × (¬ IsFileName "token"
        → (e : Error) × ((fs : FileSystem) → read_key mounted fs "token" ≡ err e))
read_key_confined_example = read_key_confined mounted "token"

trim_one_trailing_newline-append_example :
    (trim_one_trailing_newline "secret\r\n" ≡ "secret")
    × (false ≡ false → trim_one_trailing_newline "secret\n" ≡ "secret")
    × (false ≡ false → trim_one_trailing_newline "secret" ≡ "secret")
unfolding ends_with
trim_one_trailing_newline-append_example = trim_one_trailing_newline-append "secret"
