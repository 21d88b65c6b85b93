-- ===== src/Binding.antt =====
-- binding.go: the Binding struct and its setters. A setter returns the binding, changed or not, and
-- how the call ended.
pub mod Setters
pub mod Dispatch
use scaffold_go.Base.{
  ℕ, String, Bool, false, ◌||◌, Option, none, some, List, [], ◌∷◌, ◌++◌, ◌==◌, is_some, is_nonempty,
  not, if◌then◌else◌,
}
use scaffold_go.Go.{
  pos, negsuc, Duration, is_nonzero, Outcome, returns, panics, Text, sprintf, str, int,
}
use scaffold_go.Context.{ErrorStatus, ErrorHandlers}
use scaffold_go.Net.{Addr}
use scaffold_go.Http.{Handler, MiddlewareFunc, RpcHandler, Mux}

-- The `http.Server` that newHTTPServer fills in.
pub record Server : Type 0 where
  pub handler : Option Handler
  pub read_timeout : Duration
  pub write_timeout : Duration
  pub idle_timeout : Duration
  pub tls_config : Option ℕ

-- A TLS config and a serve function are known by reference; a nil map or slice
-- is an empty list.
pub record Binding : Type 0 where
  pub name : String
  pub listen_addr : String
  pub mws : List MiddlewareFunc
  pub rpc_handlers : List RpcHandler
  pub mux : Option Mux
  pub err_handlers : ErrorHandlers
  pub tls : Option ℕ
  pub read_to : Duration
  pub write_to : Duration
  pub idle_to : Duration
  pub serve_func : Option ℕ
  pub final_handler : Option Handler
  pub addr : Option Addr
  pub srv : Option Server

-- The literal of bindingStore.add: all other fields are zero.
unfoldable pub new_binding : String → String → Binding
new_binding name listen_addr = record {
  name = name;
  listen_addr = listen_addr;
  mws = [];
  rpc_handlers = [];
  mux = none;
  err_handlers = [];
  tls = none;
  read_to = pos 0;
  write_to = pos 0;
  idle_to = pos 0;
  serve_func = none;
  final_handler = none;
  addr = none;
  srv = none;
}

abbrev pub error_status_404 : ErrorStatus
error_status_404 = pos 404

abbrev pub error_status_500 : ErrorStatus
error_status_500 = pos 500

abbrev pub same_status : ErrorStatus → ErrorStatus → Bool
same_status (pos m) (pos n) = m == n
same_status (negsuc m) (negsuc n) = m == n
same_status _ _ = false

-- `m[status]`
unfoldable pub lookup_status : ErrorStatus → ErrorHandlers → Option ℕ
lookup_status s [] = none
lookup_status s ((t, h) ∷ m) = if same_status t s then some h else lookup_status s m

-- The panics of a setter that ServeFunc excludes, and of ServeFunc.
abbrev exclusive_with_serve_func : String → Binding → Text
exclusive_with_serve_func setter b =
    sprintf "scaffold: binding %q: %s is mutually exclusive with ServeFunc"
      (str b.name ∷ str setter ∷ [])

abbrev serve_func_exclusive_with : String → Binding → Text
serve_func_exclusive_with setter b =
    sprintf "scaffold: binding %q: ServeFunc is mutually exclusive with %s"
      (str b.name ∷ str setter ∷ [])

-- The body of a setter behind its panics, each with its condition, first to last.
abbrev guarded : List (Bool × Text) → Binding → Binding → Binding × Outcome (Unit {0})
guarded [] b changed = (changed, returns tt)
guarded ((failed, text) ∷ guards) b changed =
    if failed then (b, panics text) else guarded guards b changed

unfoldable pub use_middleware : List MiddlewareFunc → Binding → Binding × Outcome (Unit {0})
use_middleware mw b =
    guarded ((is_some b.serve_func, exclusive_with_serve_func "UseMiddleware" b) ∷ []) b
      (record b { mws = b.mws ++ mw })

unfoldable pub add_rpc : List RpcHandler → Binding → Binding × Outcome (Unit {0})
add_rpc handlers b =
    guarded ((is_some b.serve_func, exclusive_with_serve_func "AddRPC" b) ∷ []) b
      (record b { rpc_handlers = b.rpc_handlers ++ handlers })

unfoldable pub set_mux : Option Mux → Binding → Binding × Outcome (Unit {0})
set_mux h b =
    guarded
      ((is_some b.serve_func, exclusive_with_serve_func "SetMux" b)
        ∷ (
          is_some b.mux,
          sprintf "scaffold: binding %q: SetMux already called (duplicate fallback mux)"
              (str b.name ∷ []),
        )
        ∷ [])
      b (record b { mux = h })

-- The `switch status` of SetErrorHandler.
abbrev known_status : ErrorStatus → Bool
known_status s = same_status s error_status_404 || same_status s error_status_500

-- Only called behind the test that `h` is not nil.
abbrev store_handler : ErrorStatus → Option ℕ → Binding → Binding
store_handler status none b = b
store_handler status (some h) b = record b { err_handlers = (status, h) ∷ b.err_handlers }

unfoldable pub set_error_handler : ErrorStatus → Option ℕ → Binding → Binding × Outcome (Unit {0})
unfolding lookup_status
set_error_handler status h b =
    guarded
      ((is_some b.serve_func, exclusive_with_serve_func "SetErrorHandler" b)
        ∷ (
          not (is_some h),
          sprintf "scaffold: binding %q: SetErrorHandler called with nil handler" (str b.name ∷ []),
        )
        ∷ (
          not (known_status status),
          sprintf "scaffold: binding %q: SetErrorHandler unknown ErrorStatus %d"
              (str b.name ∷ int status ∷ []),
        )
        ∷ (
          is_some (lookup_status status b.err_handlers),
          sprintf "scaffold: binding %q: SetErrorHandler already called for ErrorStatus %d"
              (str b.name ∷ int status ∷ []),
        )
        ∷ [])
      b (store_handler status h b)

unfoldable pub set_tls : Option ℕ → Binding → Binding × Outcome (Unit {0})
set_tls cfg b =
    guarded ((is_some b.serve_func, exclusive_with_serve_func "SetTLS" b) ∷ []) b
      (record b { tls = cfg })

unfoldable pub set_timeouts :
    Duration → Duration → Duration → Binding → Binding × Outcome (Unit {0})
set_timeouts read write idle b =
    guarded ((is_some b.serve_func, exclusive_with_serve_func "SetTimeouts" b) ∷ []) b
      (record b { read_to = read; write_to = write; idle_to = idle })

unfoldable pub serve_func : Option ℕ → Binding → Binding × Outcome (Unit {0})
serve_func fn b =
    guarded
      ((is_nonempty b.mws, serve_func_exclusive_with "UseMiddleware" b)
        ∷ (is_nonempty b.rpc_handlers, serve_func_exclusive_with "AddRPC" b)
        ∷ (is_some b.mux, serve_func_exclusive_with "SetMux" b)
        ∷ (is_nonempty b.err_handlers, serve_func_exclusive_with "SetErrorHandler" b)
        ∷ (is_some b.tls, serve_func_exclusive_with "SetTLS" b)
        ∷ (
          is_nonzero b.read_to || is_nonzero b.write_to || is_nonzero b.idle_to,
          serve_func_exclusive_with "SetTimeouts" b,
        )
        ∷ [])
      b (record b { serve_func = fn })
