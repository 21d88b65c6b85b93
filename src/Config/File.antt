-- ===== src/Config/File.antt =====
-- config_file.go.
pub mod Confined
use scaffold_go.Base.{
  String, Bool, ◌||◌, not, Option, none, some, List, [], ◌∷◌, str_eq, if◌then◌else◌,
}
use scaffold_go.Go.{ℤ, Duration, Error, message, wrapped, sprintf, str, Logger, LogRecord}
use scaffold_go.Platform.{Result, ok, err}
use scaffold_go.Config.Parse.{
  Conversions, not_found_error, parse_int, parse_int64, parse_float64, parse_bool, parse_duration,
}
use scaffold_go.Config.Provider.{Provider, found_or, plain, plain_or}
use scaffold_go.Config.Filepath.{has_separator, clean, join_path, ends_with, drop_last}

pub record FileConfigProvider : Type 0 where
  pub dir : String
  pub logger : Option Logger

-- `os.ReadFile`, at the moment of the call, and `errors.Is(err, os.ErrNotExist)`.
pub record FileSystem : Type 0 where
  pub read_file : String → Result String
  pub is_not_exist : Error → Bool

-- The error, or nil. The separator of the path is `/`, so the two tests for one are one.
unfoldable pub validate_key : String → Option Error
unfolding has_separator clean
validate_key key =
    if str_eq key ""
    then some (message (sprintf "scaffold: config key %q is invalid" (str key ∷ [])))
    else if has_separator key
    then some (
        message (sprintf "scaffold: config key %q must not contain path separators" (str key ∷ [])))
    else if str_eq key "." || str_eq key ".."
    then some (message (sprintf "scaffold: config key %q is invalid" (str key ∷ [])))
    else if not (str_eq (clean key) key)
    then some
        (message (sprintf "scaffold: config key %q is not a clean path component" (str key ∷ [])))
    else none

unfoldable pub trim_one_trailing_newline : String → String
unfolding ends_with
trim_one_trailing_newline s =
    if ends_with s "\r\n" then drop_last 2 s else if ends_with s "\n" then drop_last 1 s else s

module _ {ℓ} {A : Type ℓ} where
  -- The two guards behind readKey: its error, or what the key's value, or no value, gives.
  abbrev pub readable : (Option String → Result A) → Result (Option String) → Result A
  readable f (err e) = err e
  readable f (ok found) = f found

  -- `if err != nil || !ok { return fallback }`
  abbrev pub readable_or :
      A → (Option String → A × List LogRecord) → Result (Option String) → A × List LogRecord
  readable_or fallback f (err e) = (fallback, [])
  readable_or fallback f (ok found) = f found

abbrev pub readable_string_or : String → Result (Option String) → String
readable_string_or fallback (err e) = fallback
readable_string_or fallback (ok found) = found_or fallback found

module _ (p : FileConfigProvider) (fs : FileSystem) where
  -- What readKey makes of the end of os.ReadFile.
  abbrev pub file_read : String → Result String → Result (Option String)
  file_read key (ok b) = ok (some (trim_one_trailing_newline b))
  file_read key (err e) =
      if fs.is_not_exist e
      then ok none
      else err (wrapped (sprintf "scaffold: config key %q: read failed: %w" (str key ∷ [])) e)

  abbrev pub checked_read : String → Option Error → Result (Option String)
  checked_read key (some e) = err e
  checked_read key none = file_read key (fs.read_file (join_path p.dir key))

  -- `ok none` is a key that is not there.
  unfoldable pub read_key : String → Result (Option String)
  unfolding validate_key
  read_key key = checked_read key (validate_key key)

  unfoldable pub string : String → Result String
  unfolding read_key
  string key = readable (plain (λ k v. ok v) key) (read_key key)

  unfoldable pub string_or : String → String → String
  unfolding read_key
  string_or key fallback = readable_string_or fallback (read_key key)

  unfoldable pub int : String → Result ℤ
  unfolding read_key parse_int
  int key = readable (plain parse_int key) (read_key key)

  unfoldable pub int_or : String → ℤ → ℤ × List LogRecord
  unfolding read_key parse_int
  int_or key fallback =
      readable_or fallback (plain_or p.logger "int" parse_int key fallback) (read_key key)

  unfoldable pub int64 : String → Result ℤ
  unfolding read_key parse_int64
  int64 key = readable (plain parse_int64 key) (read_key key)

  unfoldable pub int64_or : String → ℤ → ℤ × List LogRecord
  unfolding read_key parse_int64
  int64_or key fallback =
      readable_or fallback (plain_or p.logger "int64" parse_int64 key fallback) (read_key key)

  unfoldable pub float64 : {Float64 : Type 0} → Conversions Float64 → String → Result Float64
  unfolding read_key parse_float64
  float64 conv key = readable (plain (parse_float64 conv) key) (read_key key)

  unfoldable pub float64_or :
      {Float64 : Type 0} → Conversions Float64 → String → Float64 → Float64 × List LogRecord
  unfolding read_key parse_float64
  float64_or conv key fallback =
      readable_or fallback (plain_or p.logger "float64" (parse_float64 conv) key fallback)
        (read_key key)

  unfoldable pub bool : String → Result Bool
  unfolding read_key parse_bool
  bool key = readable (plain parse_bool key) (read_key key)

  unfoldable pub bool_or : String → Bool → Bool × List LogRecord
  unfolding read_key parse_bool
  bool_or key fallback =
      readable_or fallback (plain_or p.logger "bool" parse_bool key fallback) (read_key key)

  unfoldable pub duration : {Float64 : Type 0} → Conversions Float64 → String → Result Duration
  unfolding read_key parse_duration
  duration conv key = readable (plain (parse_duration conv) key) (read_key key)

  unfoldable pub duration_or :
      {Float64 : Type 0} → Conversions Float64 → String → Duration → Duration × List LogRecord
  unfolding read_key parse_duration
  duration_or conv key fallback =
      readable_or fallback (plain_or p.logger "duration" (parse_duration conv) key fallback)
        (read_key key)

  -- The methods, as the interface's.
  unfoldable pub provider : {Float64 : Type 0} → Conversions Float64 → Provider Float64
  unfolding string string_or int int_or int64 int64_or float64 float64_or bool bool_or duration
      duration_or
  provider conv = record {
    string = string;
    string_or = string_or;
    int = int;
    int_or = int_or;
    int64 = int64;
    int64_or = int64_or;
    float64 = float64 conv;
    float64_or = float64_or conv;
    bool = bool;
    bool_or = bool_or;
    duration = duration conv;
    duration_or = duration_or conv;
  }
