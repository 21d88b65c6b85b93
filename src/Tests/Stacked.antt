-- ===== src/Tests/Stacked.antt =====
-- Concrete requests to a binding with HTTPMetrics and PanicRecovery.
use scaffold_go.Base.{◌≡◌, refl, false, List, [], ◌∷◌, some}
use scaffold_go.Go.{returns, panics, Text, sprintf, str}
use scaffold_go.Http.{Request, RpcHandler, serve_mux}
use scaffold_go.ErrorHandler.{registered_error_handler}
use scaffold_go.Binding.{Binding, error_status_500}
use scaffold_go.Middleware.Exposed.{rpc_panicking}
use scaffold_go.Binding.Dispatch.{build_handler}
use scaffold_go.Middleware.{panic_record, recovering}
use scaffold_go.Middleware.Stack.{
  IsReplied, both, unmatched-IsReplied, panic-IsReplied, panic_uncounted,
}
use scaffold_go.Metrics.Measure.{measuring, labels}
use scaffold_go.Metrics.Measure.Label.{
  WriterCall, flushes, sets_header, writes_header, call_writer_each, making, unsent_exchange,
}
use scaffold_go.Middleware.Written.{making_and_panicking, recovering-written}
use scaffold_go.Tests.Service.{service, plain, log}
use scaffold_go.Tests.Serving.{request}

abbrev declines : RpcHandler
declines x = (x, returns false)

abbrev overload : Text
overload = sprintf "overload" []

-- A generated handler sets the pattern before it calls the service.
abbrev matched : Request
matched = record request { pattern = "/v1/transfer.funds" }

abbrev fails : RpcHandler
fails x =
    (record x { request = record (x.request) { pattern = "/v1/transfer.funds" } }, panics overload)

abbrev documented : List RpcHandler → Binding
documented handlers = record plain {
  mws = recovering service.error_handler log ∷ measuring 3 ∷ [];
  rpc_handlers = handlers;
  mux = some (serve_mux (λ r. "") (service.error_handler 0));
}

abbrev metrics_first : List RpcHandler → Binding
metrics_first handlers = record (documented handlers) {
  mws = measuring 3 ∷ recovering service.error_handler log ∷ [];
}

unmatched-IsReplied_example :
    IsReplied 404
      (sprintf "no route matches %s %s" (str "GET" ∷ str "/none" ∷ []))
      []
      []
      (both 3 (labels request 404))
      (build_handler service.error_handler
        (documented (declines ∷ []))
        (unsent_exchange request [] []))
unmatched-IsReplied_example =
    unmatched-IsReplied service.error_handler log 3 (documented (declines ∷ [])) request [] [] [] []
      refl refl (_, refl, refl) refl

panic-IsReplied_example :
    IsReplied 500
      (sprintf "internal server error" [])
      []
      (panic_record log matched overload ∷ [])
      (both 3 (labels matched 500))
      (build_handler service.error_handler
        (metrics_first (declines ∷ fails ∷ []))
        (unsent_exchange request [] []))
unfolding registered_error_handler
panic-IsReplied_example =
    panic-IsReplied service.error_handler log 3 (metrics_first (declines ∷ fails ∷ []))
      (declines ∷ []) [] fails request matched [] [] [] [] [] [] overload refl refl refl
      (_, refl, refl) refl refl

panic_uncounted_example :
    IsReplied 500
      (sprintf "internal server error" [])
      []
      (panic_record log matched overload ∷ [])
      []
      (build_handler service.error_handler
        (documented (declines ∷ fails ∷ []))
        (unsent_exchange request [] []))
unfolding registered_error_handler
panic_uncounted_example =
    panic_uncounted service.error_handler log 3 (documented (declines ∷ fails ∷ [])) (declines ∷ [])
      [] fails request matched [] [] [] [] [] [] overload refl refl refl (_, refl, refl) refl refl

-- Early hints, and then a panic: no reply follows.
abbrev hinting : List WriterCall
hinting = sets_header "Link" "</style.css>" ∷ writes_header 103 ∷ []

recovering-written_example :
    let x = unsent_exchange request [] [] in
    let w = call_writer_each hinting x.writer in
    let z = record x { writer = w; log = panic_record log request overload ∷ [] } in
    (recovering service.error_handler log (making hinting) x
      ≡ (record x { writer = w }, returns tt))
    × (recovering service.error_handler log (making_and_panicking hinting overload) x
        ≡ (z, returns tt))
recovering-written_example =
    recovering-written service.error_handler log hinting overload (unsent_exchange request [] [])

-- The binding answers a 500 itself.
abbrev guarded : Binding
guarded = record plain {
  mws = recovering service.error_handler log ∷ [];
  rpc_handlers = rpc_panicking (flushes ∷ []) overload ∷ declines ∷ [];
  err_handlers = (error_status_500, 2) ∷ [];
}
