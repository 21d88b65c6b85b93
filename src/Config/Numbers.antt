-- ===== src/Config/Numbers.antt =====
-- The integers that the providers read: those printed in decimal are read back.
use scaffold_go.Base.{String, ◌≡◌, refl, Option, some, List, []}
use scaffold_go.Go.{ℤ, LogRecord}
use scaffold_go.Context.{EnvConfigProvider}
use scaffold_go.Platform.{Result, ok}
use scaffold_go.Bindings.{format_int}
use scaffold_go.Config.Strconv.Decimal.{InInt64, atoi-format_int, parse_int_10_64-format_int}
use scaffold_go.Config.Parse.{parse_int, parse_int64}
use scaffold_go.Config.Env
use scaffold_go.Config.Map
use scaffold_go.Config.Map.{MapConfigProvider}
use scaffold_go.Config.File
use scaffold_go.Config.File.{FileConfigProvider, FileSystem}

-- Both variants of Int and of Int64 return the number, without a log record.
abbrev pub AllRead : ℤ → Result ℤ → ℤ × List LogRecord → Result ℤ → ℤ × List LogRecord → Type 0
AllRead z int int_or int64 int64_or =
    (int ≡ ok z) × (int_or ≡ (z, [])) × (int64 ≡ ok z) × (int64_or ≡ (z, []))

-- An int64 whose decimal numeral a key has in the environment, in the map and in a file is what Int,
-- IntOr, Int64 and Int64Or return for that key, of each of the three providers, without a log record.
pub int-format_int :
    (e : EnvConfigProvider) (env : String → Option String) (m : MapConfigProvider)
    (f : FileConfigProvider) (fs : FileSystem) (key : String) (z fallback : ℤ)
    → InInt64 z
    → env key ≡ some (format_int z)
    → Map.lookup m key ≡ some (format_int z)
    → File.read_key f fs key ≡ ok (some (format_int z))
    → AllRead z
        (Env.int e env key)
        (Env.int_or e env key fallback)
        (Env.int64 e env key)
        (Env.int64_or e env key fallback)
      × AllRead z
          (Map.int m key)
          (Map.int_or m key fallback)
          (Map.int64 m key)
          (Map.int64_or m key fallback)
      × AllRead z
          (File.int f fs key)
          (File.int_or f fs key fallback)
          (File.int64 f fs key)
          (File.int64_or f fs key fallback)
unfolding Env.int Env.int_or Env.int64 Env.int64_or Env.lookup Map.int Map.int_or Map.int64
    Map.int64_or File.int File.int_or File.int64 File.int64_or parse_int parse_int64
int-format_int e env m f fs key z fallback fits in_env in_map in_file =
    let decimal = atoi-format_int z fits in
    let decimal64 = parse_int_10_64-format_int z fits in
    (
      rw (in_env, decimal, decimal64) (refl, refl, refl, refl),
      rw (in_map, decimal, decimal64) (refl, refl, refl, refl),
      rw (in_file, decimal, decimal64) (refl, refl, refl, refl),
    )
