-- ===== src/Binding/Dispatch.antt =====
-- Binding.buildHandler and resolveErrorHandler of binding.go, and newHTTPServer of http_wire.go.
pub mod Order
use scaffold_go.Base.{
  ℕ, Bool, true, false, Option, none, some, List, [], ◌∷◌, reverse, str_eq, is_nonempty,
  if◌then◌else◌,
}
use scaffold_go.Go.{Outcome, returns, panics}
use scaffold_go.Context.{ErrorStatus, ErrorHandlers}
use scaffold_go.Http.{Exchange, Handler, MiddlewareFunc, RpcHandler, Mux, serve_mux, other_mux}
use scaffold_go.ErrorHandler.{default_error_handler, with_error_handlers}
use scaffold_go.Binding.{Binding, Server, error_status_404, lookup_status}

-- What follows the call of one RPC handler: the request is served, or the next one is asked; a
-- panic unwinds.
abbrev after_rpc :
    Exchange × Outcome Bool
    → (Exchange → Exchange × Outcome (Unit {0}))
    → Exchange × Outcome (Unit {0})
after_rpc (x, returns true) next = (x, returns tt)
after_rpc (x, returns false) next = next x
after_rpc (x, panics v) next = (x, panics v)

-- The mux, or the 404 handler when there is none or when an http.ServeMux reports no pattern.
unfoldable pub fall_through : Option Mux → Handler → Handler
fall_through none not_found x = not_found x
fall_through (some (other_mux serve)) not_found x = serve x
fall_through (some (serve_mux pattern serve)) not_found x =
    if str_eq (pattern x.request) "" then not_found x else serve x

-- The handler `inner`: the loop over the RPC handlers, and what follows it.
unfoldable pub inner : List RpcHandler → Option Mux → Handler → Handler
unfolding fall_through
inner [] mux not_found x = fall_through mux not_found x
inner (h ∷ hs) mux not_found x = after_rpc (h x) (λ y. inner hs mux not_found y)

-- `for i := len(b.mws) - 1; i >= 0; i--` wraps the last middleware first.
unfoldable pub wrap_each : List MiddlewareFunc → Handler → Handler
wrap_each [] handler = handler
wrap_each (m ∷ ms) handler = wrap_each ms (m handler)

-- `r.WithContext(withErrorHandlers(r.Context(), errHandlers))` is another request; `r` stays.
unfoldable pub expose : ErrorHandlers → Handler → Handler
unfolding with_error_handlers
expose m next x =
    let (y, end) = next (record x {
      request = record (x.request) { context = with_error_handlers x.request.context m };
    }) in
    (record y { request = x.request }, end)

-- `serve` runs a handler of the service, which the registered error handlers refer to.
module _ (serve : ℕ → Handler) where
  abbrev pub or_default : Option ℕ → ErrorStatus → Handler
  or_default none status = default_error_handler status
  or_default (some h) status = serve h

  unfoldable pub resolve_error_handler : ErrorStatus → Binding → Handler
  unfolding lookup_status
  resolve_error_handler status b = or_default (lookup_status status b.err_handlers) status

  unfoldable pub build_handler : Binding → Handler
  unfolding inner wrap_each expose resolve_error_handler
  build_handler b =
      let handler =
        wrap_each (reverse b.mws)
          (inner b.rpc_handlers b.mux (resolve_error_handler error_status_404 b)) in
      if is_nonempty b.err_handlers then expose b.err_handlers handler else handler

unfoldable pub new_http_server : Binding → Server
new_http_server b = record {
  handler = b.final_handler;
  read_timeout = b.read_to;
  write_timeout = b.write_to;
  idle_timeout = b.idle_to;
  tls_config = b.tls;
}
