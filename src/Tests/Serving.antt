-- ===== src/Tests/Serving.antt =====
-- Requests to a binding.
use scaffold_go.Base.{◌≡◌, refl, true, false, none, some, [], ◌∷◌}
use scaffold_go.Go.{returns, panics, Text, sprintf}
use scaffold_go.Http.{Request, server_writer, Exchange, MiddlewareFunc, RpcHandler, serve_mux}
use scaffold_go.Binding.{Binding, error_status_404}
use scaffold_go.Binding.Dispatch.{inner, expose, resolve_error_handler, build_handler}
use scaffold_go.Binding.Dispatch.Order.{nest, inner_first, build_handler-nest}
use scaffold_go.Http.{response}
use scaffold_go.Base.{String, Bool}
use scaffold_go.Context.{Context}
use scaffold_go.Go.{external, str, Outcome}
use scaffold_go.Http.{Body, bytes}
use scaffold_go.Platform.{Result, err}
use scaffold_go.Handlers.{health_serve, ready_handler, marshal_failed_body, marshal_failed_record}
use scaffold_go.Handlers.Replies.{fresh, ready_handler-response, health_serve-response}
use scaffold_go.Tests.Service.{log}
use scaffold_go.Tests.Service.{service, ctx, plain}

abbrev pub request : Request
request = record { method = "GET"; path = "/none"; pattern = ""; context = ctx }

abbrev exchange : Exchange
exchange = record {
  request = request;
  writer = server_writer (record { status = 0; header = []; body = []; flushes = 0 });
  log = [];
  samples = [];
}

abbrev declines : RpcHandler
declines x = (x, returns false)

abbrev serves : RpcHandler
serves x = (x, returns true)

abbrev overload : Text
overload = sprintf "overload" []

inner_first_example :
    (serves exchange ≡ (exchange, returns true)
      → inner (declines ∷ serves ∷ declines ∷ []) none (service.error_handler 0) exchange
        ≡ (exchange, returns tt))
    × (serves exchange ≡ (exchange, panics overload)
        → inner (declines ∷ serves ∷ declines ∷ []) none (service.error_handler 0) exchange
          ≡ (exchange, panics overload))
inner_first_example =
    inner_first (declines ∷ []) (declines ∷ []) serves none (service.error_handler 0) exchange
      exchange exchange overload (exchange, refl, refl)

-- A middleware that does nothing.
abbrev transparent : MiddlewareFunc
transparent next = next

-- One handler that declines, a mux without routes, and a 404 handler.
abbrev routed : Binding
routed = record plain {
  mws = transparent ∷ [];
  rpc_handlers = declines ∷ [];
  mux = some (serve_mux (λ r. "") (service.error_handler 0));
  err_handlers = (error_status_404, 1) ∷ [];
}

build_handler-nest_example :
    build_handler service.error_handler routed
    ≡ expose routed.err_handlers (
        nest routed.mws (
          inner routed.rpc_handlers routed.mux
            (resolve_error_handler service.error_handler error_status_404 routed)))
build_handler-nest_example = build_handler-nest service.error_handler routed

abbrev not_ready : Context → Outcome (Bool × String)
not_ready c = returns (false, "warming up")

ready_handler-response_example :
    let (x, end) = ready_handler not_ready (fresh request []) in
    (end ≡ returns tt)
    × ((response x.writer).status ≡ 503)
    × ((response x.writer).body ≡ bytes (sprintf "%s" (str "warming up" ∷ [])) ∷ [])
    × (x.log ≡ [])
ready_handler-response_example = ready_handler-response not_ready request [] false "warming up" refl

abbrev healthy : Context → Outcome Bool
healthy c = returns true

abbrev unmarshallable : Bool → Result Body
unmarshallable b = err (external 2)

health_serve-response_example :
    let (x, end) = health_serve unmarshallable log healthy (fresh request []) in
    (end ≡ returns tt)
    × ((response x.writer).status ≡ 500)
    × ((response x.writer).body ≡ marshal_failed_body ∷ [])
    × (x.log ≡ marshal_failed_record log request (external 2) ∷ [])
health_serve-response_example =
    health_serve-response unmarshallable log healthy request [] true (err (external 2)) refl refl
