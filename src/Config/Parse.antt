-- ===== src/Config/Parse.antt =====
-- The errors, the parse functions and the warning of config.go.
use scaffold_go.Base.{String, Bool, Option, none, some, List, [], ◌∷◌}
use scaffold_go.Go.{
  ℤ, Duration, Error, message, wrapped, sprintf, str, Logger, LogRecord, Level, text_attr,
  error_attr,
}
use scaffold_go.Platform.{Result, ok, err}
use scaffold_go.Config.Strconv.{atoi, parse_int_10_64, strconv_parse_bool}

-- `strconv.ParseFloat(v, 64)`, with its type of numbers, and `time.ParseDuration`.
pub record Conversions (Float64 : Type 0) : Type 0 where
  pub parse_float : String → Result Float64
  pub parse_duration : String → Result Duration

unfoldable pub not_found_error : String → Error
not_found_error key = message (sprintf "scaffold: config key %q not found" (str key ∷ []))

unfoldable pub parse_failure_error : String → String → String → Error → Error
parse_failure_error key value kind e =
    wrapped
      (sprintf "scaffold: config key %q: failed to parse %q as %s: %w"
        (str key ∷ str value ∷ str kind ∷ []))
      e

-- `if err != nil { return 0, parseFailureError(key, v, kind, err) }`
abbrev pub converted {ℓ} : {A : Type ℓ} → String → String → String → Result A → Result A
converted key v kind (ok a) = ok a
converted key v kind (err e) = err (parse_failure_error key v kind e)

unfoldable pub parse_int : String → String → Result ℤ
parse_int key v = converted key v "int" (atoi v)

unfoldable pub parse_int64 : String → String → Result ℤ
parse_int64 key v = converted key v "int64" (parse_int_10_64 v)

unfoldable pub parse_float64 :
    {Float64 : Type 0} → Conversions Float64 → String → String → Result Float64
parse_float64 conv key v = converted key v "float64" (conv.parse_float v)

unfoldable pub parse_bool : String → String → Result Bool
parse_bool key v = converted key v "bool" (strconv_parse_bool v)

unfoldable pub parse_duration :
    {Float64 : Type 0} → Conversions Float64 → String → String → Result Duration
parse_duration conv key v = converted key v "duration" (conv.parse_duration v)

abbrev pub parse_failure_record : Logger → String → String → String → Error → LogRecord
parse_failure_record log key value kind e = record {
  logger = log;
  level = Level.warn;
  text = "config parse failed; using fallback";
  attrs = text_attr "key" key ∷ text_attr "value" value ∷ text_attr "kind" kind ∷ error_attr e ∷ [];
}

-- The records that it logs: none to a nil logger.
unfoldable pub log_parse_failure : Option Logger → String → String → String → Error → List LogRecord
log_parse_failure none key value kind e = []
log_parse_failure (some log) key value kind e = parse_failure_record log key value kind e ∷ []
