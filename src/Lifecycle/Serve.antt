-- ===== src/Lifecycle/Serve.antt =====
-- Serve of scaffold.go.
pub mod Failure
pub mod Ends
pub mod Whole
use scaffold_go.Base.{
  ℕ, String, Bool, true, false, Option, none, some, List, [], ◌∷◌, if◌then◌else◌,
}
use scaffold_go.Go.{
  Outcome, returns, panics, Text, Error, Duration, is_positive, Logger, Level, text_attr,
  error_attr,
}
use scaffold_go.Context.{Context, with_timeout, enrich_ctx, build_shutdown_ctx}
use scaffold_go.Net.{Ip}
use scaffold_go.System.{
  Sys, Daemon, BindingStore, on_listen_ready_phase, before_shutdown_phase, on_start_call, note,
  log_record,
}
use scaffold_go.Platform.{Platform, Result, ok, err, Wake, by_signal, by_context}
use scaffold_go.Lifecycle.Callbacks.{run_callbacks}
use scaffold_go.Lifecycle.Open.{open_bindings}
use scaffold_go.Lifecycle.Shutdown.{run_shutdown}
use scaffold_go.Lifecycle.Options.{
  Options, DaemonConfig, resolve_log, framework_logger, resolve_bindings, resolve_config,
  is_test_bindings, ordered_from_bindings,
}
use scaffold_go.Lifecycle.Instance.{set_flag}
use scaffold_go.Lifecycle.Start.{
  Resolution, resolved, bad_bind, bad_advertised, initial, announce, daemon_config, failed_with,
  given_store, resolve_addresses,
}

abbrev pub exit_success : ℕ
exit_success = 0

abbrev pub exit_failure : ℕ
exit_failure = 1

-- How a run of Serve ends: with an exit code, or with a panic out of OnStart.
pub data Served : Type 0 where
  exits : ℕ → Served
  panicked : Text → Served

module _ {World : Type 0} where
  module _ (d : Daemon World) (p : Platform World) (fuel : ℕ) (start_ctx : Context) (o : Options)
      (sc : DaemonConfig) (fw : Logger) where
    -- The context of every shutdown of Serve. The start timeout's cancel function is called before
    -- it is built, and has no part in it.
    abbrev pub shutdown_ctx : Context
    shutdown_ctx = enrich_ctx (build_shutdown_ctx o.on_stop_timeout) sc.config sc.secrets sc.log

    unfoldable pub serve_failed : List ℕ → Sys World → Option (Sys World × Served)
    serve_failed opened s =
        failed_with (exits exit_failure)
          (run_shutdown d p shutdown_ctx fw fuel none opened (set_flag s))

    -- "shutdown initiated", with the reason.
    abbrev pub log_wake : Wake → Sys World → Sys World
    log_wake (by_signal sig) =
        log_record fw Level.info "shutdown initiated"
          (text_attr "reason" "signal" ∷ text_attr "signal" sig ∷ [])
    log_wake by_context =
        log_record fw Level.info "shutdown initiated" (text_attr "reason" "context" ∷ [])

    abbrev pub serve_stopped :
        Option (Sys World × Option (List Error)) → Option (Sys World × Served)
    serve_stopped none = none
    serve_stopped (some (s, errs)) =
        some (log_record fw Level.info "daemon stopped" [] s, exits exit_success)

    -- The select has fired.
    abbrev pub serve_woken : List ℕ → Sys World × Wake → Option (Sys World × Served)
    serve_woken opened (s, wake) = serve_stopped (
        run_shutdown d p shutdown_ctx fw fuel (some before_shutdown_phase) opened
          (set_flag (log_wake wake s)))

    -- The on_listen_ready callbacks have run: the daemon is ready, and blocks.
    abbrev pub serve_ready : Context → List ℕ → Option (Sys World) → Option (Sys World × Served)
    serve_ready ctx opened none = none
    serve_ready ctx opened (some s) =
        serve_woken opened (p.await_stop ctx (log_record fw Level.info "daemon ready" [] s))

    abbrev pub serve_opened :
        Context → Option (Sys World × List ℕ × Option Error) → Option (Sys World × Served)
    serve_opened ctx none = none
    serve_opened ctx (some (s, opened, some e)) = serve_failed opened s
    serve_opened ctx (some (s, opened, none)) =
        serve_ready ctx opened (run_callbacks d start_ctx fw fuel (some on_listen_ready_phase) s)

    abbrev pub serve_ordered : Context → Sys World → Result (List ℕ) → Option (Sys World × Served)
    serve_ordered ctx s (err e) =
        serve_failed []
          (log_record fw Level.error "Bindings iteration failed" (error_attr e ∷ []) s)
    serve_ordered ctx s (ok order) = serve_opened ctx (open_bindings d p fuel start_ctx fw order s)

    -- What follows the call of OnStart.
    unfoldable pub serve_called :
        Context → Sys World → Outcome (Option Error) → Option (Sys World × Served)
    serve_called ctx s (panics v) = some (s, panicked v)
    serve_called ctx s (returns (some e)) =
        serve_failed [] (log_record fw Level.error "OnStart returned error" (error_attr e ∷ []) s)
    serve_called ctx s (returns none) = serve_ordered ctx s (ordered_from_bindings s.bindings)

    -- From the given state on; `ctx` is the caller's context.
    unfoldable pub serve_resolved : Context → Sys World → Option (Sys World × Served)
    serve_resolved ctx s =
        let (t, end) = d.on_start start_ctx (note (on_start_call start_ctx) s) in
        serve_called ctx t end

  -- `net.ParseIP(advAddr).IsLoopback()`, false of nil.
  abbrev pub is_loopback_addr : Platform World → Option Ip → Bool
  is_loopback_addr p none = false
  is_loopback_addr p (some ip) = p.is_loopback_ip ip

  abbrev pub warn_loopback : Platform World → Logger → String → Sys World → Sys World
  warn_loopback p fw adv_addr s =
      if is_loopback_addr p (p.parse_ip adv_addr)
      then log_record fw Level.warn
          "advertised address is loopback; peers outside this host cannot reach this service"
          (text_attr "advertised_address" adv_addr ∷ []) s
      else s

-- `context.WithTimeout(ctx, opts.OnStartTimeout)` when that is positive.
abbrev pub build_start_ctx : Context → Duration → Context
build_start_ctx ctx timeout = if is_positive timeout then with_timeout ctx timeout else ctx

module _ {World : Type 0} (d : Daemon World) (p : Platform World) (fuel : ℕ) (ctx : Context)
    (o : Options) (w : World) where
  abbrev pub base : Logger
  base = resolve_log o.log

  abbrev pub refused : String → Error → Option (Sys World × Served)
  refused text e = some (
    log_record (framework_logger base) Level.error text (error_attr e ∷ [])
        (initial (given_store o.bindings) (framework_logger base) w),
    exits exit_failure,
  )

  abbrev pub serve_addressed : Resolution → Option (Sys World × Served)
  serve_addressed (bad_bind e) = refused "invalid bind address" e
  serve_addressed (bad_advertised e) = refused "invalid advertised address" e
  serve_addressed (resolved a) =
      let sc = daemon_config o base a in
      let fw = framework_logger base in
      serve_resolved d p fuel
        (enrich_ctx (build_start_ctx ctx o.on_start_timeout) sc.config sc.secrets base) o sc fw ctx
        (announce fw a (
          warn_loopback p fw a.adv_addr
            (initial (resolve_bindings o.bindings true a.bind_addr) fw w)))

-- Serve. On an address error nothing has been set up: the state is the initial one, with the error
-- logged. `none` means that the fuel for a loop ran out.
unfoldable pub serve :
    {World : Type 0}
    → Daemon World
    → Platform World
    → ℕ
    → Context
    → Options
    → World
    → Option (Sys World × Served)
serve d p fuel ctx o w =
    serve_addressed d p fuel ctx o w (resolve_addresses p o (is_test_bindings o.bindings) w)
