-- ===== src/Lifecycle/Serve/Failure.antt =====
-- The partial shutdown of Start and Serve when OnStart returns an error.
use scaffold_go.Base.{
  ℕ, ◌≡◌, refl, ap, ap₂, ◌∙◌, true, false, ◌||◌, some, List, [], ◌∷◌, ◌++◌, map, reverse,
  append_assoc,
}
use scaffold_go.Go.{returns, Error, Logger, Level, error_attr}
use scaffold_go.Context.{Context}
use scaffold_go.System.{
  Sys, Daemon, BindingStore, on_start_call, on_stop_call, clean_call, calls, note, log_record,
}
use scaffold_go.System.Rely.{
  Grows, Grows-trans, Does, IsCivil, Does-trans, note-Does, logged-Does, Rely-Does,
}
use scaffold_go.Platform.{Platform}
use scaffold_go.Lifecycle.Callbacks.{run_callbacks}
use scaffold_go.Lifecycle.Shutdown.{teardown, run_shutdown}
use scaffold_go.Lifecycle.Shutdown.Order.{IsCivilServer, teardown-IsTornDown}
use scaffold_go.Lifecycle.Options.{Options, DaemonConfig}
use scaffold_go.Lifecycle.Instance.{set_flag}
use scaffold_go.Lifecycle.Run.{after_start}
use scaffold_go.Lifecycle.Start.{
  Addresses, initial, announce, failed, start_failed, start_called, start_resolved,
}
use scaffold_go.Lifecycle.Serve.{
  exits, exit_failure, shutdown_ctx, serve_failed, serve_called, serve_resolved,
}

module _ {World : Type 0} (d : Daemon World) where
  -- From `s` to `t` scaffold has called OnStart, OnStop and the clean-up functions, those that
  -- OnStart registered included, last registered first, and nothing else: no callback ran, and
  -- nothing was listened on or shut down.
  pub record IsPartial (start_ctx stop_ctx : Context) (s t : Sys World) : Type 0 where
    pub cleaned : List ℕ
    pub cleaned_grown :
        Grows (d.on_start start_ctx (note (on_start_call start_ctx) s)).0.cleaner.stack cleaned
    pub calls_made :
        calls t.trace
        ≡ calls s.trace
          ++ on_start_call start_ctx ∷ on_stop_call stop_ctx ∷ map clean_call (reverse cleaned)
    pub cleaner_done : t.cleaner.done ≡ true
    pub cleaner_empty : t.cleaner.stack ≡ []

  -- The state in which the partial shutdown begins.
  abbrev pub aborted : Context → Logger → Error → Sys World → Sys World
  aborted ctx fw e s = set_flag (
      log_record fw Level.error "OnStart returned error" (error_attr e ∷ [])
        (d.on_start ctx (note (on_start_call ctx) s)).0)

module _ {World : Type 0} (d : Daemon World) (p : Platform World) (civil : IsCivil d)
    (civil_server : IsCivilServer p) where
  -- The partial shutdown, after nothing but log records.
  pub teardown-IsPartial :
      (start_ctx stop_ctx : Context) (fw : Logger) (s u : Sys World)
      → (s.cleaner.running || s.cleaner.done) ≡ false
      → Does [] (after_start d start_ctx s) u
      → IsPartial d start_ctx stop_ctx s (teardown d p stop_ctx fw [] (set_flag u)).0
  teardown-IsPartial start_ctx stop_ctx fw s u idle logs =
      let does = Does-trans (note-Does (on_start_call start_ctx) s) (
        Does-trans (Rely-Does (civil.on_start_rely start_ctx (note (on_start_call start_ctx) s)))
          logs) in
      let down =
        teardown-IsTornDown d p civil civil_server stop_ctx fw [] (set_flag u) tt
          (ap₂ ◌||◌ does.steady.running_kept does.steady.done_kept ∙ idle) in
      record {
        cleaned = down.cleaned;
        cleaned_grown = Grows-trans logs.steady.stack_grows down.cleaned_grown;
        calls_made =
            down.calls_made
            ∙ ap (λ l. l ++ on_stop_call stop_ctx ∷ map clean_call (reverse down.cleaned))
                does.calls_made
            ∙ append_assoc (calls s.trace) _ _;
        cleaner_done = down.cleaner_done;
        cleaner_empty = down.cleaner_empty;
      }

  -- When OnStart of a service that keeps to the API returns an error, Start returns that error, after
  -- a partial shutdown: OnStop and the clean-up functions run, no callback does, and nothing is
  -- listened on.
  start_on_error :
      (fuel : ℕ) (ctx : Context) (sc : DaemonConfig) (fw : Logger) (a : Addresses)
      (store : BindingStore) (w : World) (e : Error)
      → let s = announce fw a (initial store fw w) in
        (d.on_start ctx (note (on_start_call ctx) s)).1 ≡ returns (some e)
        → let t = (teardown d p ctx fw [] (aborted d ctx fw e s)).0 in
          (start_resolved d p fuel ctx sc fw a store w ≡ some (t, failed e))
          × IsPartial d ctx ctx s t
  unfolding start_resolved start_called start_failed run_shutdown run_callbacks announce
  start_on_error fuel ctx sc fw a store w e returned =
      let s = announce fw a (initial store fw w) in
      (
        ap (start_called d p fuel ctx sc fw (d.on_start ctx (note (on_start_call ctx) s)).0)
            returned,
        teardown-IsPartial ctx ctx fw s _ refl (logged-Does _ _),
      )

  -- When OnStart of a service that keeps to the API returns an error, Serve exits with the failure
  -- code, after a partial shutdown under the shutdown context: OnStop and the clean-up functions run,
  -- no callback does, and nothing is listened on.
  serve_on_error :
      (fuel : ℕ) (start_ctx ctx : Context) (o : Options) (sc : DaemonConfig) (fw : Logger)
      (s : Sys World) (e : Error)
      → (s.cleaner.running || s.cleaner.done) ≡ false
      → (d.on_start start_ctx (note (on_start_call start_ctx) s)).1 ≡ returns (some e)
      → let stop_ctx = shutdown_ctx d p fuel start_ctx o sc fw in
        let t = (teardown d p stop_ctx fw [] (aborted d start_ctx fw e s)).0 in
        (serve_resolved d p fuel start_ctx o sc fw ctx s ≡ some (t, exits exit_failure))
        × IsPartial d start_ctx stop_ctx s t
  unfolding serve_resolved serve_called serve_failed run_shutdown run_callbacks
  serve_on_error fuel start_ctx ctx o sc fw s e idle returned = (
    ap
        (serve_called d p fuel start_ctx o sc fw ctx
          (d.on_start start_ctx (note (on_start_call start_ctx) s)).0)
        returned,
    teardown-IsPartial start_ctx (shutdown_ctx d p fuel start_ctx o sc fw) fw s _ idle
        (logged-Does _ _),
  )
