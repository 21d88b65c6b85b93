-- ===== src/Config/Provider.antt =====
-- The interface ConfigProvider of config.go, and what its comment promises of every implementation.
use scaffold_go.Base.{String, ◌≡◌, refl, Bool, Option, none, some, List, []}
use scaffold_go.Go.{ℤ, Duration, Logger, LogRecord}
use scaffold_go.Platform.{Result, ok, err}
use scaffold_go.Config.Strconv.{atoi, parse_int_10_64, strconv_parse_bool}
use scaffold_go.Config.Parse.{
  Conversions, not_found_error, parse_failure_error, converted, log_parse_failure,
}

-- The method set at one moment: what each call returns, and of an Or variant what it logs.
pub record Provider (Float64 : Type 0) : Type 0 where
  pub string : String → Result String
  pub string_or : String → String → String
  pub int : String → Result ℤ
  pub int_or : String → ℤ → ℤ × List LogRecord
  pub int64 : String → Result ℤ
  pub int64_or : String → ℤ → ℤ × List LogRecord
  pub float64 : String → Result Float64
  pub float64_or : String → Float64 → Float64 × List LogRecord
  pub bool : String → Result Bool
  pub bool_or : String → Bool → Bool × List LogRecord
  pub duration : String → Result Duration
  pub duration_or : String → Duration → Duration × List LogRecord

-- What StringOr makes of a value, or of none.
abbrev pub found_or : String → Option String → String
found_or fallback none = fallback
found_or fallback (some v) = v

module _ {ℓ} {A : Type ℓ} where
  -- `if !ok { return …, notFoundError(key) }`, and the conversion of the value.
  abbrev pub plain : (String → String → Result A) → String → Option String → Result A
  plain parse key none = err (not_found_error key)
  plain parse key (some v) = parse key v

  -- What an Or variant makes of a value that it has found.
  abbrev pub parsed_or :
      Option Logger → String → String → String → A → Result A → A × List LogRecord
  parsed_or logger kind key v fallback (ok a) = (a, [])
  parsed_or logger kind key v fallback (err e) = (fallback, log_parse_failure logger key v kind e)

  abbrev pub plain_or :
      Option Logger
      → String
      → (String → String → Result A)
      → String
      → A
      → Option String
      → A × List LogRecord
  plain_or logger kind parse key fallback none = (fallback, [])
  plain_or logger kind parse key fallback (some v) =
      parsed_or logger kind key v fallback (parse key v)

  -- The promise for one type: `found` is what the provider's source holds under the key, and
  -- `converts` what the conversion makes of the value.
  abbrev pub ConvertsAs :
      Option Logger
      → String
      → String
      → String
      → A
      → Result A
      → A × List LogRecord
      → Result A
      → Type ℓ
  ConvertsAs logger kind key v fallback got got_or (ok a) = (got ≡ ok a) × (got_or ≡ (a, []))
  ConvertsAs logger kind key v fallback got got_or (err e) =
      (got ≡ err (parse_failure_error key v kind e))
      × (got_or
          ≡ (fallback, log_parse_failure logger key v kind (parse_failure_error key v kind e)))

  abbrev pub BehavesAs :
      Option Logger
      → String
      → (String → Result A)
      → String
      → A
      → Result A
      → A × List LogRecord
      → Result (Option String)
      → Type ℓ
  BehavesAs logger kind convert key fallback got got_or (err e) =
      (got ≡ err e) × (got_or ≡ (fallback, []))
  BehavesAs logger kind convert key fallback got got_or (ok none) =
      (got ≡ err (not_found_error key)) × (got_or ≡ (fallback, []))
  BehavesAs logger kind convert key fallback got got_or (ok (some v)) =
      ConvertsAs logger kind key v fallback got got_or (convert v)

  converted-ConvertsAs :
      (logger : Option Logger) (kind key v : String) (fallback : A) (r : Result A)
      → ConvertsAs logger kind key v fallback
          (converted key v kind r)
          (parsed_or logger kind key v fallback (converted key v kind r))
          r
  converted-ConvertsAs logger kind key v fallback (ok a) = (refl, refl)
  converted-ConvertsAs logger kind key v fallback (err e) = (refl, refl)

  pub plain-BehavesAs :
      (logger : Option Logger) (kind : String) (convert : String → Result A) (key : String)
      (fallback : A) (found : Option String)
      → let parse = λ (k v : String). converted k v kind (convert v) in
        BehavesAs logger kind convert key fallback
          (plain parse key found)
          (plain_or logger kind parse key fallback found)
          (ok found)
  plain-BehavesAs logger kind convert key fallback none = (refl, refl)
  plain-BehavesAs logger kind convert key fallback (some v) =
      converted-ConvertsAs logger kind key v fallback (convert v)

pub found_or-BehavesAs :
    (logger : Option Logger) (key fallback : String) (found : Option String)
    → BehavesAs logger "string" ok key fallback
        (plain (λ k v. ok v) key found)
        (found_or fallback found, [])
        (ok found)
found_or-BehavesAs logger key fallback none = (refl, refl)
found_or-BehavesAs logger key fallback (some v) = (refl, refl)

-- A provider over a source: what it reads under each key, at that moment.
pub record Refines {Float64 : Type 0} (conv : Conversions Float64) (logger : Option Logger)
    (source : String → Result (Option String)) (p : Provider Float64) : Type 0 where
  pub string_as :
      (key fallback : String)
      → BehavesAs logger "string" ok key fallback
          (p.string key)
          (p.string_or key fallback, [])
          (source key)
  pub int_as :
      (key : String) (fallback : ℤ)
      → BehavesAs logger "int" atoi key fallback (p.int key) (p.int_or key fallback) (source key)
  pub int64_as :
      (key : String) (fallback : ℤ)
      → BehavesAs logger "int64" parse_int_10_64 key fallback
          (p.int64 key)
          (p.int64_or key fallback)
          (source key)
  pub float64_as :
      (key : String) (fallback : Float64)
      → BehavesAs logger "float64" conv.parse_float key fallback
          (p.float64 key)
          (p.float64_or key fallback)
          (source key)
  pub bool_as :
      (key : String) (fallback : Bool)
      → BehavesAs logger "bool" strconv_parse_bool key fallback
          (p.bool key)
          (p.bool_or key fallback)
          (source key)
  pub duration_as :
      (key : String) (fallback : Duration)
      → BehavesAs logger "duration" conv.parse_duration key fallback
          (p.duration key)
          (p.duration_or key fallback)
          (source key)
