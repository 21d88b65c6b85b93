-- ===== src/Middleware/Stack.antt =====
-- A binding whose pipeline is HTTPMetrics (prometheus/metrics.go) and PanicRecovery (middleware.go)
-- around its dispatch (binding.go): what a client is sent, what the log gets and what is counted.
use scaffold_go.Base.{
  ℕ, String, ◌≡◌, refl, sym, ap, subst, ◌∙◌, false, true, none, List, [], ◌∷◌, ◌++◌,
}
use scaffold_go.Go.{Outcome, returns, panics, Text, sprintf, str, itoa, Logger, LogRecord}
use scaffold_go.Http.{
  Request, json, Writer, server_writer, panic_tracking_writer, response_writer, Exchange, Handler,
  MiddlewareFunc, RpcHandler, Labels, Sample, counted, observed, set_header, write_header, write,
  response,
}
use scaffold_go.ErrorHandler.{
  write_reply, internal_server_error, no_route_matches, default_error_handler,
  registered_error_handler,
}
use scaffold_go.Binding.{Binding, error_status_404, error_status_500, lookup_status}
use scaffold_go.Binding.Dispatch.{build_handler, inner, resolve_error_handler, or_default}
use scaffold_go.Binding.Dispatch.Order.{
  Declines, is_unrouted, inner_unmatched, inner_first, build_handler-nest,
}
use scaffold_go.Middleware.{panic_record, recovering, recovered, tracked}
use scaffold_go.Metrics.Measure.{measuring, measured, recorded, labels}
use scaffold_go.Metrics.Measure.Label.{unsent_exchange}

-- A request on which nothing has been sent, as it stands behind the middlewares in one of the two
-- orders, with what has been logged and counted.
abbrev pub passed :
    (Writer → Writer) → Request → List (String × String) → List LogRecord → List Sample → Exchange
passed wrap r header log samples = record {
  request = r;
  writer = wrap (server_writer (record { status = 0; header = header; body = []; flushes = 0 }));
  log = log;
  samples = samples;
}

abbrev pub metrics_inside : Writer → Writer
metrics_inside w = response_writer 0 false (panic_tracking_writer false w)

abbrev pub recovery_inside : Writer → Writer
recovery_inside w = panic_tracking_writer false (response_writer 0 false w)

-- One update of each collector.
abbrev pub both : ℕ → Labels → List Sample
both set l = counted set l ∷ observed set l ∷ []

-- The request is answered by a reply of scaffold's own, with this log and these updates of the metrics.
pub record IsReplied (code : ℕ) (msg : Text) (header : List (String × String))
    (log : List LogRecord) (samples : List Sample) (out : Exchange × Outcome (Unit {0}))
    : Type 0 where
  pub returned : out.1 ≡ returns tt
  sent : response out.0.writer ≡ record {
    status = code;
    header = ("Content-Type", "application/json") ∷ header;
    body = json (("code", itoa code) ∷ ("message", msg) ∷ []) ∷ [];
    flushes = 0;
  }
  sampled : out.0.samples ≡ samples
  logged : out.0.log ≡ log

module _ (serve : ℕ → Handler) (log : Logger) (set : ℕ) where
  -- The dispatch of a binding.
  abbrev dispatch : Binding → Handler
  dispatch b = inner b.rpc_handlers b.mux (resolve_error_handler serve error_status_404 b)

  stacked :
      (b : Binding) (m k : MiddlewareFunc)
      → b.mws ≡ m ∷ k ∷ []
      → b.err_handlers ≡ []
      → build_handler serve b ≡ m (k (dispatch b))
  stacked b m k two unregistered = build_handler-nest serve b ∙ rw (two, unregistered)

  -- What a middleware does when the handler behind it has ended.
  abbrev recovers : Exchange × Outcome (Unit {0}) → Exchange × Outcome (Unit {0})
  recovers o = recovered serve log (tracked o.0.writer) o

  abbrev records : Exchange × Outcome (Unit {0}) → Exchange × Outcome (Unit {0})
  records o = recorded set (measured o.0.writer) o

  metrics_inside-ended :
      (b : Binding) (r : Request) (header : List (String × String)) (samples : List Sample)
      (o : Exchange × Outcome (Unit {0}))
      → b.mws ≡ recovering serve log ∷ measuring set ∷ []
      → b.err_handlers ≡ []
      → dispatch b (passed metrics_inside r header [] samples) ≡ o
      → build_handler serve b (unsent_exchange r header samples) ≡ recovers (records o)
  unfolding measuring recovering
  metrics_inside-ended b r header samples o two unregistered ended =
      ap (λ (h : Handler). h (unsent_exchange r header samples)) (stacked b _ _ two unregistered)
      ∙ ap (λ p. recovers (records p)) ended

  recovery_inside-ended :
      (b : Binding) (r : Request) (header : List (String × String)) (samples : List Sample)
      (o : Exchange × Outcome (Unit {0}))
      → b.mws ≡ measuring set ∷ recovering serve log ∷ []
      → b.err_handlers ≡ []
      → dispatch b (passed recovery_inside r header [] samples) ≡ o
      → build_handler serve b (unsent_exchange r header samples) ≡ records (recovers o)
  unfolding measuring recovering
  recovery_inside-ended b r header samples o two unregistered ended =
      ap (λ (h : Handler). h (unsent_exchange r header samples)) (stacked b _ _ two unregistered)
      ∙ ap (λ p. records (recovers p)) ended

  -- A request that every RPC handler declines, without sending anything, setting a header or changing the
  -- request, and for which the mux has no route, or where there is no mux, on a binding with PanicRecovery
  -- around HTTPMetrics and without error handlers: the client is sent the status 404 with the JSON reply
  -- that names the method and the path, the request is counted and observed once under 404, and nothing
  -- more is logged.
  pub unmatched-IsReplied :
      (b : Binding) (r : Request) (header : List (String × String)) (samples samples' : List Sample)
      (logs : List LogRecord)
      → b.mws ≡ recovering serve log ∷ measuring set ∷ []
      → b.err_handlers ≡ []
      → Declines b.rpc_handlers
          (passed metrics_inside r header [] samples)
          (passed metrics_inside r header logs samples')
      → is_unrouted b.mux r ≡ true
      → IsReplied 404
          (sprintf "no route matches %s %s" (str r.method ∷ str r.path ∷ []))
          header
          logs
          (samples' ++ both set (labels r 404))
          (build_handler serve b (unsent_exchange r header samples))
  unfolding resolve_error_handler lookup_status default_error_handler no_route_matches write_reply
      set_header write_header write
  unmatched-IsReplied b r header samples samples' logs two unregistered declined unrouted =
      let y = passed metrics_inside r header logs samples' in
      let reached =
        inner_unmatched serve b (passed metrics_inside r header [] samples) y declined unrouted
        ∙ ap (λ m. or_default serve (lookup_status error_status_404 m) error_status_404 y)
            unregistered in
      subst (IsReplied 404 _ header logs (samples' ++ both set (labels r 404)))
        (sym (metrics_inside-ended b r header samples _ two unregistered reached))
        (record { returned = refl; sent = refl; sampled = refl; logged = refl })

  -- The handler at which the dispatch ends by a panic, behind handlers that decline.
  dispatch-panics :
      (b : Binding) (before after : List RpcHandler) (h : RpcHandler) (x y z : Exchange) (v : Text)
      → b.rpc_handlers ≡ before ++ h ∷ after
      → Declines before x y
      → h y ≡ (z, panics v)
      → dispatch b x ≡ (z, panics v)
  dispatch-panics b before after h x y z v handlers declined fails =
      let not_found = resolve_error_handler serve error_status_404 b in
      ap (λ hs. inner hs b.mux not_found x) handlers
      ∙ (inner_first before after h b.mux not_found x y z v declined).1 fails

  -- A request on which an RPC handler panics, on a binding with HTTPMetrics around PanicRecovery and without
  -- error handlers, where neither it, which may change the request, nor those that have declined it before,
  -- unchanged, have sent anything or set a header, and the request's context carries no error handler for
  -- the status 500: the panic ends there, the client is sent the status 500 with the JSON reply of an
  -- internal error, the request, as the handler left it, is counted and observed once under 500,
  -- and the panic is logged once.
  pub panic-IsReplied :
      (b : Binding) (before after : List RpcHandler) (h : RpcHandler) (r r' : Request)
      (header : List (String × String)) (samples samples' samples'' : List Sample)
      (logs logs' : List LogRecord) (v : Text)
      → b.mws ≡ measuring set ∷ recovering serve log ∷ []
      → b.err_handlers ≡ []
      → b.rpc_handlers ≡ before ++ h ∷ after
      → Declines before
          (passed recovery_inside r header [] samples)
          (passed recovery_inside r header logs samples')
      → h (passed recovery_inside r header logs samples')
        ≡ (passed recovery_inside r' header logs' samples'', panics v)
      → registered_error_handler r'.context error_status_500 ≡ none
      → IsReplied 500
          (sprintf "internal server error" [])
          header
          (logs' ++ panic_record log r' v ∷ [])
          (samples'' ++ both set (labels r' 500))
          (build_handler serve b (unsent_exchange r header samples))
  unfolding default_error_handler internal_server_error write_reply set_header write_header write
  panic-IsReplied b before after h r r' header samples samples' samples'' logs logs' v two
        unregistered handlers declined fails none_in_context =
      subst
        (IsReplied 500 _ header (logs' ++ panic_record log r' v ∷ [])
          (samples'' ++ both set (labels r' 500)))
        (sym (
          recovery_inside-ended b r header samples _ two unregistered
            (dispatch-panics b before after h _ _ _ v handlers declined fails)))
        (rw none_in_context
          (record { returned = refl; sent = refl; sampled = refl; logged = refl }))

  -- A request on which an RPC handler panics, on a binding with PanicRecovery around HTTPMetrics and without
  -- error handlers, where neither it, which may change the request, nor those that have declined it before,
  -- unchanged, have sent anything or set a header, and the request's context carries no error handler for
  -- the status 500: the panic ends there, the client is sent the status 500 with the JSON reply of an
  -- internal error, and the panic is logged once, but the request is neither counted nor observed.
  pub panic_uncounted :
      (b : Binding) (before after : List RpcHandler) (h : RpcHandler) (r r' : Request)
      (header : List (String × String)) (samples samples' samples'' : List Sample)
      (logs logs' : List LogRecord) (v : Text)
      → b.mws ≡ recovering serve log ∷ measuring set ∷ []
      → b.err_handlers ≡ []
      → b.rpc_handlers ≡ before ++ h ∷ after
      → Declines before
          (passed metrics_inside r header [] samples)
          (passed metrics_inside r header logs samples')
      → h (passed metrics_inside r header logs samples')
        ≡ (passed metrics_inside r' header logs' samples'', panics v)
      → registered_error_handler r'.context error_status_500 ≡ none
      → IsReplied 500
          (sprintf "internal server error" [])
          header
          (logs' ++ panic_record log r' v ∷ [])
          samples''
          (build_handler serve b (unsent_exchange r header samples))
  unfolding default_error_handler internal_server_error write_reply set_header write_header write
  panic_uncounted b before after h r r' header samples samples' samples'' logs logs' v two
        unregistered handlers declined fails none_in_context =
      subst (IsReplied 500 _ header (logs' ++ panic_record log r' v ∷ []) samples'')
        (sym (
          metrics_inside-ended b r header samples _ two unregistered
            (dispatch-panics b before after h _ _ _ v handlers declined fails)))
        (rw none_in_context
          (record { returned = refl; sent = refl; sampled = refl; logged = refl }))
