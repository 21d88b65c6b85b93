-- ===== src/Lifecycle/Serve/Ends.antt =====
-- Serve runs from OnStart to its exit.
use scaffold_go.Base.{
  ℕ, suc, ◌*◌, ◌≤◌, ◌<◌, ◌≡◌, refl, ap, ◌∙◌, false, ◌||◌, Option, none, some, List, [], arith,
}
use scaffold_go.Go.{returns, Error, Logger, Level}
use scaffold_go.Context.{Context}
use scaffold_go.Net.{Addr}
use scaffold_go.System.{Sys, Daemon, on_start_call, note, log_record}
use scaffold_go.System.Rely.{IsCivil, Does, Does-trans, logged-Does, Rely-Does}
use scaffold_go.Platform.{Platform, ok, Wake, by_signal, by_context}
use scaffold_go.Lifecycle.Callbacks.{run_callbacks}
use scaffold_go.Lifecycle.Callbacks.Cost.{load}
use scaffold_go.Lifecycle.Probe.{probe_timeout, probe_pause}
use scaffold_go.Lifecycle.Probe.Ends.{IsTimely}
use scaffold_go.Lifecycle.Shutdown.{teardown, run_shutdown}
use scaffold_go.Lifecycle.Shutdown.Servers.{AreAllocated}
use scaffold_go.Lifecycle.Shutdown.Order.{IsCivilServer}
use scaffold_go.Lifecycle.Options.{Options, DaemonConfig, ordered_from_bindings}
use scaffold_go.Lifecycle.Instance.{set_flag}
use scaffold_go.Lifecycle.Run.{
  IsBounded, IsWellBehaved, IsServed, IsServed-logged, IsOpened, Does-then, after_start,
}
use scaffold_go.Lifecycle.Run.Stages.{
  run_callbacks-IsUp, teardown-IsServed, run_shutdown-IsServed, open_bindings-IsReached,
}
use scaffold_go.Lifecycle.Serve.{
  exits, exit_success, exit_failure, shutdown_ctx, serve_failed, log_wake, serve_stopped,
  serve_ready, serve_opened, serve_ordered, serve_called, serve_resolved,
}

-- The exit code, by the failure of openBindings.
abbrev pub code_of : Option Error → ℕ
code_of none = exit_success
code_of (some e) = exit_failure

module _ {World : Type 0} (d : Daemon World) (p : Platform World) (civil : IsCivil d)
    (civil_server : IsCivilServer p) (credit : World → ℕ) (bounded : IsBounded d p credit)
    (rounds : ℕ) (start_ctx : Context) (o : Options) (sc : DaemonConfig) (fw : Logger)
    (ctx : Context) (waits : IsWellBehaved credit (λ s. (p.await_stop ctx s).0)) where
  abbrev stop_ctx : Context
  stop_ctx = shutdown_ctx d p (suc rounds) start_ctx o sc fw

  log_wake-Does :
      (wake : Wake) (s : Sys World) → Does [] s (log_wake d p (suc rounds) start_ctx o sc fw wake s)
  log_wake-Does (by_signal sig) s = logged-Does _ s
  log_wake-Does by_context s = logged-Does _ s

  load-log_wake :
      (wake : Wake) (s : Sys World)
      → load credit (log_wake d p (suc rounds) start_ctx o sc fw wake s) ≡ load credit s
  load-log_wake (by_signal sig) s = refl
  load-log_wake by_context s = refl

  -- The bindings are open: the callbacks run, Serve waits, and shuts down.
  opened_ends :
      (u : Sys World) (opened : List ℕ)
      → AreAllocated u.bindings.heap opened
      → (u.cleaner.running || u.cleaner.done) ≡ false
      → load credit u ≤ rounds
      → (t : Sys World) × (serve_opened d p
            (suc rounds)
            start_ctx
            o
            sc
            fw
            ctx
            (some (u, opened, none))
          ≡ some (t, exits exit_success))
        × IsServed stop_ctx u opened none t
  opened_ends u opened a idle h =
      let (v, ran, up) = run_callbacks-IsUp d p civil credit bounded rounds fw start_ctx u h in
      let ready = log_record fw Level.info "daemon ready" [] v in
      let (x, wake) = p.await_stop ctx ready in
      let w = log_wake d p (suc rounds) start_ctx o sc fw wake x in
      let (t, errs, ends, served) =
        run_shutdown-IsServed d p civil credit bounded rounds fw civil_server stop_ctx u w
          v.on_listen_ready opened
          (record {
            does = Does-then up.does (
                Does-trans (logged-Does _ v)
                  (Does-trans (Rely-Does (waits.keeps ready)) (log_wake-Does wake x)));
            ready_grown = up.ready_grown;
            light = omega (arith, up.light, waits.spends ready, load-log_wake wake x);
          })
          a idle h in
      (
        log_record fw Level.info "daemon stopped" [] t,
        ap (serve_ready d p (suc rounds) start_ctx o sc fw ctx opened) ran
            ∙ ap (serve_stopped d p (suc rounds) start_ctx o sc fw) ends,
        IsServed-logged stop_ctx u opened none t _ served,
      )

  -- What follows the end of openBindings.
  opening_ends :
      (u : Sys World) (opened : List ℕ) (failure : Option Error)
      → AreAllocated u.bindings.heap opened
      → (u.cleaner.running || u.cleaner.done) ≡ false
      → load credit u ≤ rounds
      → (t : Sys World) × (serve_opened d p
            (suc rounds)
            start_ctx
            o
            sc
            fw
            ctx
            (some (u, opened, failure))
          ≡ some (t, exits (code_of failure)))
        × IsServed stop_ctx u opened failure t
  unfolding serve_failed run_shutdown run_callbacks
  opening_ends u opened none a idle h = opened_ends u opened a idle h
  opening_ends u opened (some e) a idle h = (
    (teardown d p stop_ctx fw opened (set_flag u)).0,
    refl,
    teardown-IsServed d p civil credit bounded rounds fw civil_server stop_ctx u opened e a idle,
  )

  -- A Serve whose OnStart returns nil ends, where the cleaner is idle before, the bindings are in the
  -- store, the service keeps to the API, the clock does not run backwards, and the fuel is enough for
  -- the callbacks that are registered and that may still be, and for the rounds of a readiness probe.
  -- It opens the bindings in order. If one fails, it exits with the failure code and runs no
  -- callback; else with the success code, after the OnListenReady callbacks, and, once woken, the
  -- BeforeShutdown callbacks, of both at least those registered when the bindings are open. On both
  -- paths it then shuts down the servers of the bindings opened, in reverse order, calls OnStop once,
  -- and runs the clean-up functions, last registered first.
  pub serve_resolved_ends :
      (timely : (addr : Addr) → IsTimely p start_ctx addr)
      (enough : probe_timeout < probe_pause * rounds) (s : Sys World) (order : List ℕ)
      → (s.cleaner.running || s.cleaner.done) ≡ false
      → load credit s ≤ rounds
      → (d.on_start start_ctx (note (on_start_call start_ctx) s)).1 ≡ returns none
      → ordered_from_bindings (after_start d start_ctx s).bindings ≡ ok order
      → AreAllocated (after_start d start_ctx s).bindings.heap order
      → (t : Sys World) × (u : Sys World) × (opened : List ℕ) × (failure : Option Error)
        × (serve_resolved d p (suc rounds) start_ctx o sc fw ctx s
            ≡ some (t, exits (code_of failure)))
        × IsOpened d p credit rounds start_ctx fw order s u opened failure
        × IsServed stop_ctx u opened failure t
  unfolding serve_resolved serve_called
  serve_resolved_ends timely enough s order idle h returned iterates a =
      let (u, opened, failure, reached) =
        open_bindings-IsReached d p civil credit bounded rounds fw start_ctx timely enough s order
          idle h a in
      let (t, ends, served) =
        opening_ends u opened failure reached.allocated reached.idle reached.light in
      let s1 = after_start d start_ctx s in
      (
        t,
        u,
        opened,
        failure,
        ap (serve_called d p (suc rounds) start_ctx o sc fw ctx s1) returned
            ∙ ap (serve_ordered d p (suc rounds) start_ctx o sc fw ctx s1) iterates
            ∙ ap (serve_opened d p (suc rounds) start_ctx o sc fw ctx) reached.ends
            ∙ ends,
        reached.is_opened,
        served,
      )
