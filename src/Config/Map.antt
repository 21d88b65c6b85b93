-- ===== src/Config/Map.antt =====
-- config_map.go.
use scaffold_go.Base.{String, Bool, Option, none, some, List, [], ◌∷◌, str_eq, if◌then◌else◌}
use scaffold_go.Go.{ℤ, Duration, Logger, LogRecord}
use scaffold_go.Platform.{Result, ok}
use scaffold_go.Config.Parse.{
  Conversions, parse_int, parse_int64, parse_float64, parse_bool, parse_duration,
}
use scaffold_go.Config.Provider.{Provider, found_or, plain, plain_or}

-- `none` is the nil map.
pub record MapConfigProvider : Type 0 where
  pub values : Option (List (String × String))
  pub logger : Option Logger

-- `m[key]`
abbrev pub index : List (String × String) → String → Option String
index [] key = none
index ((k, v) ∷ m) key = if str_eq k key then some v else index m key

module _ (p : MapConfigProvider) where
  abbrev index_or_nil : Option (List (String × String)) → String → Option String
  index_or_nil none key = none
  index_or_nil (some m) key = index m key

  unfoldable pub lookup : String → Option String
  lookup key = index_or_nil p.values key

  unfoldable pub string : String → Result String
  unfolding lookup
  string key = plain (λ k v. ok v) key (lookup key)

  unfoldable pub string_or : String → String → String
  unfolding lookup
  string_or key fallback = found_or fallback (lookup key)

  unfoldable pub int : String → Result ℤ
  unfolding lookup parse_int
  int key = plain parse_int key (lookup key)

  unfoldable pub int_or : String → ℤ → ℤ × List LogRecord
  unfolding lookup parse_int
  int_or key fallback = plain_or p.logger "int" parse_int key fallback (lookup key)

  unfoldable pub int64 : String → Result ℤ
  unfolding lookup parse_int64
  int64 key = plain parse_int64 key (lookup key)

  unfoldable pub int64_or : String → ℤ → ℤ × List LogRecord
  unfolding lookup parse_int64
  int64_or key fallback = plain_or p.logger "int64" parse_int64 key fallback (lookup key)

  unfoldable pub float64 : {Float64 : Type 0} → Conversions Float64 → String → Result Float64
  unfolding lookup parse_float64
  float64 conv key = plain (parse_float64 conv) key (lookup key)

  unfoldable pub float64_or :
      {Float64 : Type 0} → Conversions Float64 → String → Float64 → Float64 × List LogRecord
  unfolding lookup parse_float64
  float64_or conv key fallback =
      plain_or p.logger "float64" (parse_float64 conv) key fallback (lookup key)

  unfoldable pub bool : String → Result Bool
  unfolding lookup parse_bool
  bool key = plain parse_bool key (lookup key)

  unfoldable pub bool_or : String → Bool → Bool × List LogRecord
  unfolding lookup parse_bool
  bool_or key fallback = plain_or p.logger "bool" parse_bool key fallback (lookup key)

  unfoldable pub duration : {Float64 : Type 0} → Conversions Float64 → String → Result Duration
  unfolding lookup parse_duration
  duration conv key = plain (parse_duration conv) key (lookup key)

  unfoldable pub duration_or :
      {Float64 : Type 0} → Conversions Float64 → String → Duration → Duration × List LogRecord
  unfolding lookup parse_duration
  duration_or conv key fallback =
      plain_or p.logger "duration" (parse_duration conv) key fallback (lookup key)

  -- The methods, as the interface's.
  unfoldable pub provider : {Float64 : Type 0} → Conversions Float64 → Provider Float64
  unfolding string string_or int int_or int64 int64_or float64 float64_or bool bool_or duration
      duration_or
  provider conv = record {
    string = string;
    string_or = string_or;
    int = int;
    int_or = int_or;
    int64 = int64;
    int64_or = int64_or;
    float64 = float64 conv;
    float64_or = float64_or conv;
    bool = bool;
    bool_or = bool_or;
    duration = duration conv;
    duration_or = duration_or conv;
  }
