-- ===== src/Lifecycle/Open.antt =====
-- openBindings and runBindingServeLoop of scaffold.go.
pub mod State
pub mod Round
pub mod Order
pub mod Ends
pub mod Leak
pub mod Frame
use scaffold_go.Base.{
  ℕ, String, Bool, Option, none, some, List, [], ◌∷◌, ◌++◌, get_elem?, set, is_some, not, ◌&&◌,
  if◌then◌else◌,
}
use scaffold_go.Go.{Error, Logger, LogRecord, Level, text_attr, error_attr}
use scaffold_go.Context.{Context}
use scaffold_go.Net.{Addr}
use scaffold_go.Binding.{Binding}
use scaffold_go.Binding.Dispatch.{build_handler, new_http_server}
use scaffold_go.System.{
  Sys, Daemon, ServeMode, by_serve_func, by_serve_tls, by_serve, listen_call, serve_call, note,
  log_record, emit, logged,
}
use scaffold_go.Platform.{Platform, Result, ok, err}
use scaffold_go.Lifecycle.Probe.{probe_timeout, wait_for_listener}

-- The switch of runBindingServeLoop.
abbrev plain_or_tls : Option ℕ → ServeMode
plain_or_tls none = by_serve
plain_or_tls (some cfg) = by_serve_tls

abbrev mode_of : Option ℕ → Option ℕ → ServeMode
mode_of (some fn) tls = by_serve_func fn
mode_of none tls = plain_or_tls tls

unfoldable pub serve_mode : Binding → ServeMode
serve_mode b = mode_of b.serve_func b.tls

-- `b.addr = ln.Addr()`, and the server of an HTTP binding.
unfoldable pub with_server : Addr → Binding → Binding
with_server addr b =
    let b' = record b { addr = some addr } in
    if is_some b.serve_func then b' else record b' { srv = some (new_http_server b') }

unfoldable pub listen_failed_record : Logger → Binding → Error → LogRecord
listen_failed_record log b e = record {
  logger = log;
  level = Level.error;
  text = "binding listen failed";
  attrs = text_attr "name" b.name ∷ error_attr e ∷ [];
}

unfoldable pub probe_failed_record : Logger → Binding → Error → LogRecord
probe_failed_record log b e = record {
  logger = log;
  level = Level.error;
  text = "binding readiness probe failed";
  attrs = text_attr "name" b.name ∷ error_attr e ∷ [];
}

module _ {World : Type 0} where
  abbrev pub put_binding : ℕ → Binding → Sys World → Sys World
  put_binding r b s = record s { bindings = record (s.bindings) { heap = set s.bindings.heap r b } }

  -- What the serve loop logs of the result of its serve function, when `flag.Load()` has been `seen`.
  unfoldable pub serve_returned :
      Platform World → Logger → Bool → String → Option Error → Sys World → Sys World
  serve_returned p log seen name none s =
      if seen
      then s
      else log_record log Level.error "binding serve returned nil unexpectedly"
          (text_attr "binding" name ∷ []) s
  serve_returned p log seen name (some e) s =
      if seen
      then if p.is_server_closed e
        then s
        else log_record log Level.debug "binding serve returned"
            (text_attr "binding" name ∷ error_attr e ∷ []) s
      else log_record log Level.error "binding serve returned unexpectedly"
          (text_attr "binding" name ∷ error_attr e ∷ []) s

  -- `if b.serveFunc == nil { b.finalHandler = b.buildHandler() }`
  unfoldable pub with_handler : Daemon World → Binding → Binding
  with_handler d b =
      if is_some b.serve_func
      then b
      else record b { final_handler = some (build_handler d.error_handler b) }

  -- The binding serves: `go runBindingServeLoop(log, b, ln, flag)`, and the log record.
  abbrev pub serving : Platform World → Logger → ℕ → Addr → Binding → Sys World → Sys World
  serving p log r addr b s =
      log_record log Level.info "binding listening"
        (text_attr "name" b.name ∷ text_attr "addr" (p.addr_string addr) ∷ [])
        (note (serve_call r (serve_mode b)) (put_binding r (with_server addr b) s))

  module _ (d : Daemon World) (p : Platform World) (fuel : ℕ) (ctx : Context) (log : Logger) where
    -- The end of one round: nil, or the error of the readiness probe.
    abbrev probed :
        Binding → Sys World → Option (World × Option Error) → Option (Sys World × Option Error)
    probed b s none = none
    probed b s (some (w, none)) = some (record s { world = w }, none)
    probed b s (some (w, some e)) =
        some (emit (logged (probe_failed_record log b e)) (record s { world = w }), some e)

    -- What follows `net.Listen`. The serve loop starts as a goroutine of its own.
    abbrev listened : ℕ → Binding → Sys World → Result Addr → Option (Sys World × Option Error)
    listened r b s (err e) = some (emit (logged (listen_failed_record log b e)) s, some e)
    listened r b s (ok addr) =
        let t = serving p log r addr b s in
        probed b t (wait_for_listener p ctx addr fuel probe_timeout t.world)

    unfoldable pub open_at : ℕ → Binding → Sys World → Option (Sys World × Option Error)
    open_at r b s =
        let t = note (listen_call r) (put_binding r b s) in
        let (w, result) = p.listen b.listen_addr t.world in
        listened r b (record t { world = w }) result

    -- Every pointer in the order leads to a binding.
    unfoldable pub open_found : ℕ → Sys World → Option Binding → Option (Sys World × Option Error)
    open_found r s none = some (s, none)
    open_found r s (some b) = open_at r (with_handler d b) s

    -- One round of the loop.
    unfoldable pub open_binding : ℕ → Sys World → Option (Sys World × Option Error)
    open_binding r s = open_found r s (get_elem? s.bindings.heap r)

    abbrev after_open :
        (Sys World → Option (Sys World × List ℕ × Option Error))
        → List ℕ
        → Option (Sys World × Option Error)
        → Option (Sys World × List ℕ × Option Error)
    after_open next opened none = none
    after_open next opened (some (t, none)) = next t
    after_open next opened (some (t, some e)) = some (t, opened, some e)

    -- The loop, with the bindings opened so far.
    unfoldable pub open_each :
        List ℕ → List ℕ → Sys World → Option (Sys World × List ℕ × Option Error)
    open_each [] opened s = some (s, opened, none)
    open_each (r ∷ rs) opened s =
        let next = λ (t : Sys World). open_each rs (opened ++ r ∷ []) t in
        after_open next opened (open_binding r s)

    -- `none` means that the fuel of a readiness probe ran out.
    unfoldable pub open_bindings : List ℕ → Sys World → Option (Sys World × List ℕ × Option Error)
    open_bindings order s = open_each order [] s
