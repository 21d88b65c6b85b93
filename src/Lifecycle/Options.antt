-- ===== src/Lifecycle/Options.antt =====
-- Options, DaemonConfig and the resolve functions of scaffold.go.
use scaffold_go.Base.{ℕ, String, Bool, true, false, Option, none, some, List, [], ◌∷◌}
use scaffold_go.Go.{Duration, Error, message, sprintf, Logger, default_logger, with_attr}
use scaffold_go.Context.{ConfigProvider, env_config}
use scaffold_go.System.{BindingStore, BindingsKind, default_bindings, test_bindings, third_party}
use scaffold_go.Bindings.{ordered_bindings}
use scaffold_go.Platform.{Result, ok, err}

-- The clock is the platform's.
pub record Options : Type 0 where
  pub bindings : Option BindingStore
  pub config_provider : Option ConfigProvider
  pub secrets_provider : Option ConfigProvider
  pub log : Option Logger
  pub bind_address : String
  pub advertised_address : String
  pub on_start_timeout : Duration
  pub on_stop_timeout : Duration

-- The part of DaemonConfig that does not change. Its bindings, cleaner and callbacks are `Sys`'s.
pub record DaemonConfig : Type 0 where
  pub config : ConfigProvider
  pub secrets : ConfigProvider
  pub log : Logger
  pub bind_address : String
  pub advertised_address : String

-- logger.go
abbrev pub new_default_logger : Logger
new_default_logger = default_logger

unfoldable pub resolve_log : Option Logger → Logger
resolve_log (some log) = log
resolve_log none = new_default_logger

-- `base.With("library", "scaffold")`
abbrev pub framework_logger : Logger → Logger
framework_logger base = with_attr "library" "scaffold" base

abbrev pub empty_store : BindingsKind → BindingStore
empty_store kind = record { kind = kind; order = []; by_name = []; heap = [] }

-- `db.bindAddr = bindAddr` of a DefaultBindings.
abbrev pub with_bind_addr : String → BindingsKind → BindingsKind
with_bind_addr bind_addr (default_bindings old) = default_bindings bind_addr
with_bind_addr bind_addr test_bindings = test_bindings
with_bind_addr bind_addr (third_party n) = third_party n

unfoldable pub resolve_bindings : Option BindingStore → Bool → String → BindingStore
resolve_bindings (some b) production bind_addr = record b { kind = with_bind_addr bind_addr b.kind }
resolve_bindings none true bind_addr = empty_store (default_bindings bind_addr)
resolve_bindings none false bind_addr = empty_store test_bindings

unfoldable pub resolve_config : Option ConfigProvider → Logger → ConfigProvider
resolve_config (some p) log = p
resolve_config none log = env_config (record { logger = some log })

-- `_, isTest = opts.Bindings.(*TestBindings)`
abbrev is_test_kind : BindingsKind → Bool
is_test_kind test_bindings = true
is_test_kind (default_bindings a) = false
is_test_kind (third_party n) = false

abbrev pub is_test_bindings : Option BindingStore → Bool
is_test_bindings none = false
is_test_bindings (some b) = is_test_kind b.kind

abbrev pub unsupported_bindings : Error
unsupported_bindings = message (
    sprintf
      "scaffold: Bindings implementation does not support ordered iteration; only DefaultBindings and TestBindings are supported in v1"
      [])

-- The pointers that are not nil, which are all that orderedBindings yields.
abbrev pub pointers : List (Option ℕ) → List ℕ
pointers [] = []
pointers (none ∷ rs) = pointers rs
pointers (some r ∷ rs) = r ∷ pointers rs

abbrev pub ordered_of_kind : BindingsKind → BindingStore → Result (List ℕ)
ordered_of_kind (third_party n) b = err unsupported_bindings
ordered_of_kind (default_bindings a) b = ok (pointers (ordered_bindings b))
ordered_of_kind test_bindings b = ok (pointers (ordered_bindings b))

unfoldable pub ordered_from_bindings : BindingStore → Result (List ℕ)
ordered_from_bindings b = ordered_of_kind b.kind b
