-- ===== src/ErrorHandler.antt =====
-- error_handler.go: the responses that scaffold makes itself, and the map of registered handlers
-- that a request's context carries.
use scaffold_go.Base.{ℕ, Option, some, [], ◌∷◌, if◌then◌else◌}
use scaffold_go.Go.{returns, sprintf, str, itoa, Text}
use scaffold_go.Context.{
  Context, with_value, value, Value, handlers_value, err_handler_ctx_key, ErrorStatus,
  ErrorHandlers,
}
use scaffold_go.Http.{Handler, Writer, json, set_header, write_header, write}
use scaffold_go.Binding.{same_status, error_status_500, lookup_status}

-- A write's result is ignored.
unfoldable pub write_reply : ℕ → Text → Writer → Writer
unfolding set_header write_header write
write_reply code msg w =
    write (json (("code", itoa code) ∷ ("message", msg) ∷ []))
      (write_header code (set_header "Content-Type" "application/json" w))

unfoldable pub internal_server_error : Handler
unfolding write_reply
internal_server_error x = (
  record x { writer = write_reply 500 (sprintf "internal server error" []) (x.writer) },
  returns tt,
)

unfoldable pub no_route_matches : Handler
unfolding write_reply
no_route_matches x = (
  record x {
    writer =
        write_reply 404
          (sprintf "no route matches %s %s" (str x.request.method ∷ str x.request.path ∷ []))
          (x.writer);
  },
  returns tt,
)

unfoldable pub default_error_handler : ErrorStatus → Handler
unfolding internal_server_error no_route_matches
default_error_handler status =
    if same_status status error_status_500 then internal_server_error else no_route_matches

unfoldable pub with_error_handlers : Context → ErrorHandlers → Context
with_error_handlers ctx m = with_value ctx err_handler_ctx_key (handlers_value m)

-- The type assertion: another type, or nil, gives the nil map.
abbrev as_handlers : Option Value → ErrorHandlers
as_handlers (some (handlers_value m)) = m
as_handlers _ = []

unfoldable pub registered_error_handler : Context → ErrorStatus → Option ℕ
unfolding lookup_status
registered_error_handler ctx status =
    lookup_status status (as_handlers (value ctx err_handler_ctx_key))
