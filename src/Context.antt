-- ===== src/Context.antt =====
-- context.go, the two context builders of scaffold.go (enrichCtx, buildShutdownCtx), and the
-- values that a lifecycle or request context carries.
pub mod Laws
use scaffold_go.Base.{ℕ, Bool, true, false, Option, none, some, List, if◌then◌else◌}
use scaffold_go.Go.{Logger, ℤ, Duration, is_positive}

-- The `EnvConfigProvider` struct of config.go.
pub record EnvConfigProvider : Type 0 where
  pub logger : Option Logger

-- A `ConfigProvider` value: the platform's, or the built-in one that reads the environment.
pub data ConfigProvider : Type 0 where
  provided : ℕ → ConfigProvider
  env_config : EnvConfigProvider → ConfigProvider

-- `ErrorStatus` is an int; the service's error handlers are known by reference.
abbrev pub ErrorStatus : Type 0
ErrorStatus = ℤ

abbrev pub ErrorHandlers : Type 0
ErrorHandlers = List (ErrorStatus × ℕ)

-- The private key types of context.go and error_handler.go.
pub data Key : Type 0 where
  config_ctx_key secrets_ctx_key logger_ctx_key err_handler_ctx_key : Key

pub data Value : Type 0 where
  provider_value : ConfigProvider → Value
  logger_value : Logger → Value
  handlers_value : ErrorHandlers → Value

-- A `context.Context`. The keys above are private to the package, so a caller's own context
-- holds a value under one of them only where it was derived from a context that scaffold made.
pub data Context : Type 0 where
  background : Context
  caller : ℕ → Context
  with_value : Context → Key → Value → Context
  with_timeout : Context → Duration → Context

abbrev pub same_key : Key → Key → Bool
same_key config_ctx_key config_ctx_key = true
same_key secrets_ctx_key secrets_ctx_key = true
same_key logger_ctx_key logger_ctx_key = true
same_key err_handler_ctx_key err_handler_ctx_key = true
same_key _ _ = false

-- `ctx.Value(key)`: the innermost value under the key, or nil.
abbrev pub value : Context → Key → Option Value
value background k = none
value (caller n) k = none
value (with_value ctx j v) k = if same_key j k then some v else value ctx k
value (with_timeout ctx d) k = value ctx k

-- The type assertions of the accessors: another type, or nil, gives nil.
abbrev pub as_provider : Option Value → Option ConfigProvider
as_provider (some (provider_value p)) = some p
as_provider _ = none

abbrev pub as_logger : Option Value → Option Logger
as_logger (some (logger_value l)) = some l
as_logger _ = none

unfoldable pub get_config : Context → Option ConfigProvider
get_config ctx = as_provider (value ctx config_ctx_key)

unfoldable pub get_secrets : Context → Option ConfigProvider
get_secrets ctx = as_provider (value ctx secrets_ctx_key)

unfoldable pub get_logger : Context → Option Logger
get_logger ctx = as_logger (value ctx logger_ctx_key)

unfoldable pub with_config : Context → ConfigProvider → Context
with_config ctx c = with_value ctx config_ctx_key (provider_value c)

unfoldable pub with_secrets : Context → ConfigProvider → Context
with_secrets ctx c = with_value ctx secrets_ctx_key (provider_value c)

unfoldable pub with_logger : Context → Logger → Context
with_logger ctx l = with_value ctx logger_ctx_key (logger_value l)

unfoldable pub enrich_ctx : Context → ConfigProvider → ConfigProvider → Logger → Context
unfolding with_config with_secrets with_logger
enrich_ctx ctx cfg sec log = with_logger (with_secrets (with_config ctx cfg) sec) log

-- The returned cancel function releases a timer and has no effect here.
unfoldable pub build_shutdown_ctx : Duration → Context
build_shutdown_ctx timeout =
    if is_positive timeout then with_timeout background timeout else background
