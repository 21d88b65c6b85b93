-- ===== src/Config/Contract.antt =====
-- The three providers keep the promise of the interface ConfigProvider.
use scaffold_go.Base.{String, refl, Option, []}
use scaffold_go.Go.{Logger}
use scaffold_go.Context.{EnvConfigProvider}
use scaffold_go.Platform.{Result, ok, err}
use scaffold_go.Config.Strconv.{atoi, parse_int_10_64, strconv_parse_bool}
use scaffold_go.Config.Parse.{
  Conversions, converted, parse_int, parse_int64, parse_float64, parse_bool, parse_duration,
}
use scaffold_go.Config.Provider.{
  plain, plain_or, BehavesAs, plain-BehavesAs, found_or-BehavesAs, Refines,
}
use scaffold_go.Config.Env
use scaffold_go.Config.Map
use scaffold_go.Config.Map.{MapConfigProvider}
use scaffold_go.Config.File
use scaffold_go.Config.File.{
  FileConfigProvider, FileSystem, readable, readable_or, readable_string_or,
}

readable-BehavesAs {ℓ} :
    {A : Type ℓ} (logger : Option Logger) (kind : String) (convert : String → Result A)
    (key : String) (fallback : A) (found : Result (Option String))
    → let parse = λ (k v : String). converted k v kind (convert v) in
      BehavesAs logger kind convert key fallback
        (readable (plain parse key) found)
        (readable_or fallback (plain_or logger kind parse key fallback) found)
        found
readable-BehavesAs logger kind convert key fallback (err e) = (refl, refl)
readable-BehavesAs logger kind convert key fallback (ok found) =
    plain-BehavesAs logger kind convert key fallback found

readable_string-BehavesAs :
    (logger : Option Logger) (key fallback : String) (found : Result (Option String))
    → BehavesAs logger "string" ok key fallback
        (readable (plain (λ k v. ok v) key) found)
        (readable_string_or fallback found, [])
        found
readable_string-BehavesAs logger key fallback (err e) = (refl, refl)
readable_string-BehavesAs logger key fallback (ok found) =
    found_or-BehavesAs logger key fallback found

module _ {Float64 : Type 0} (conv : Conversions Float64) where
  env_provider-Refines :
      (p : EnvConfigProvider) (env : String → Option String)
      → Refines conv p.logger (λ key. ok (env key)) (Env.provider p env conv)
  unfolding Env.provider Env.string Env.string_or Env.lookup parse_int parse_int64 parse_float64
      parse_bool parse_duration
  env_provider-Refines p env = record {
    string_as = λ key fallback. found_or-BehavesAs p.logger key fallback (env key);
    int_as = λ key fallback. plain-BehavesAs p.logger "int" atoi key fallback (env key);
    int64_as =
        λ key fallback. plain-BehavesAs p.logger "int64" parse_int_10_64 key fallback (env key);
    float64_as =
        λ key fallback. plain-BehavesAs p.logger "float64" conv.parse_float key fallback (env key);
    bool_as =
        λ key fallback. plain-BehavesAs p.logger "bool" strconv_parse_bool key fallback (env key);
    duration_as = λ key fallback.
        plain-BehavesAs p.logger "duration" conv.parse_duration key fallback (env key);
  }

  map_provider-Refines :
      (p : MapConfigProvider)
      → Refines conv p.logger (λ key. ok (Map.lookup p key)) (Map.provider p conv)
  unfolding Map.provider Map.string Map.string_or parse_int parse_int64 parse_float64 parse_bool
      parse_duration
  map_provider-Refines p = record {
    string_as = λ key fallback. found_or-BehavesAs p.logger key fallback (Map.lookup p key);
    int_as = λ key fallback. plain-BehavesAs p.logger "int" atoi key fallback (Map.lookup p key);
    int64_as = λ key fallback.
        plain-BehavesAs p.logger "int64" parse_int_10_64 key fallback (Map.lookup p key);
    float64_as = λ key fallback.
        plain-BehavesAs p.logger "float64" conv.parse_float key fallback (Map.lookup p key);
    bool_as = λ key fallback.
        plain-BehavesAs p.logger "bool" strconv_parse_bool key fallback (Map.lookup p key);
    duration_as = λ key fallback.
        plain-BehavesAs p.logger "duration" conv.parse_duration key fallback (Map.lookup p key);
  }

  file_provider-Refines :
      (p : FileConfigProvider) (fs : FileSystem)
      → Refines conv p.logger (File.read_key p fs) (File.provider p fs conv)
  unfolding File.provider File.string File.string_or parse_int parse_int64 parse_float64 parse_bool
      parse_duration
  file_provider-Refines p fs = record {
    string_as =
        λ key fallback. readable_string-BehavesAs p.logger key fallback (File.read_key p fs key);
    int_as = λ key fallback.
        readable-BehavesAs p.logger "int" atoi key fallback (File.read_key p fs key);
    int64_as = λ key fallback.
        readable-BehavesAs p.logger "int64" parse_int_10_64 key fallback (File.read_key p fs key);
    float64_as = λ key fallback.
        readable-BehavesAs p.logger "float64" conv.parse_float key fallback
          (File.read_key p fs key);
    bool_as = λ key fallback.
        readable-BehavesAs p.logger "bool" strconv_parse_bool key fallback (File.read_key p fs key);
    duration_as = λ key fallback.
        readable-BehavesAs p.logger "duration" conv.parse_duration key fallback
          (File.read_key p fs key);
  }

  -- Each of the three providers keeps the promise of the interface for all six types: of a key that
  -- its source does not hold, the plain variant returns an error that names the key and the Or variant
  -- the fallback, without a log record; of a value that does not parse, the plain variant returns an
  -- error with the key, the value and the type, and the Or variant the fallback, with one warning if
  -- the provider has a logger; of any other value both return what it stands for. A file that cannot
  -- be read, or a key that is no file name, is an error of the plain variant, and the fallback of the
  -- Or variant.
  pub provider-Refines :
      (e : EnvConfigProvider) (env : String → Option String) (m : MapConfigProvider)
      (f : FileConfigProvider) (fs : FileSystem)
      → Refines conv e.logger (λ key. ok (env key)) (Env.provider e env conv)
        × Refines conv m.logger (λ key. ok (Map.lookup m key)) (Map.provider m conv)
        × Refines conv f.logger (File.read_key f fs) (File.provider f fs conv)
  provider-Refines e env m f fs =
      (env_provider-Refines e env, map_provider-Refines m, file_provider-Refines f fs)
