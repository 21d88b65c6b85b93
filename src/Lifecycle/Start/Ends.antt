-- ===== src/Lifecycle/Start/Ends.antt =====
-- Start runs from OnStart to its return, and the Stop of its instance undoes it.
use scaffold_go.Base.{
  ℕ, suc, ◌*◌, ◌≤◌, ◌<◌, ◌≡◌, refl, sym, ap, ◌∙◌, true, false, ◌||◌, Option, none, some, List, [],
  ◌∷◌, ◌++◌, append-nil, arith,
}
use scaffold_go.Go.{returns, Error, Logger, Level, text_attr}
use scaffold_go.Context.{Context, enrich_ctx}
use scaffold_go.Net.{Addr}
use scaffold_go.System.{Sys, Daemon, BindingStore, on_start_call, note, log_record}
use scaffold_go.System.Rely.{IsCivil, Does-trans, logged-Does, Rely-Does}
use scaffold_go.Platform.{Platform, ok}
use scaffold_go.Lifecycle.Callbacks.{run_callbacks}
use scaffold_go.Lifecycle.Callbacks.Cost.{load}
use scaffold_go.Lifecycle.Probe.{probe_timeout, probe_pause}
use scaffold_go.Lifecycle.Probe.Ends.{IsTimely}
use scaffold_go.Lifecycle.Shutdown.{teardown, run_shutdown}
use scaffold_go.Lifecycle.Shutdown.Servers.{AreAllocated}
use scaffold_go.Lifecycle.Shutdown.Order.{IsCivilServer}
use scaffold_go.Lifecycle.Options.{DaemonConfig, ordered_from_bindings}
use scaffold_go.Lifecycle.Instance.{Instance, set_flag, stopped_with, stop}
use scaffold_go.Lifecycle.Run.{
  IsBounded, IsWellBehaved, IsServed, IsServed-logged, IsOpened, Does-then, after_start,
}
use scaffold_go.Lifecycle.Run.Stages.{
  run_callbacks-IsUp, teardown-IsServed, run_shutdown-IsServed, open_bindings-IsReached,
}
use scaffold_go.Lifecycle.Start.{
  Addresses, Started, started, failed, initial, announce, start_failed, ready, start_opened,
  start_ordered, start_called, start_resolved,
}

module _ {World : Type 0} (d : Daemon World) (p : Platform World) (fuel : ℕ) (ctx : Context)
    (sc : DaemonConfig) (meanwhile : Sys World → Sys World) (stop_ctx : Context) where
  -- The end of Start in `t`, by the failure of openBindings, which left `u`. An instance is stopped
  -- in the state that the service has made of `t` by then.
  abbrev pub IsStarted : Sys World → List ℕ → Option Error → Sys World → Started → Type 0
  IsStarted u opened (some e) t r = (r ≡ failed e) × IsServed ctx u opened (some e) t
  IsStarted u opened none t r =
      (i : Instance) × (r ≡ started i)
      × (j : Instance) × (v : Sys World) × (errs : Option (List Error)) × (stop d p fuel stop_ctx i
            (meanwhile t)
          ≡ some (j, v, errs))
      × IsServed (enrich_ctx stop_ctx sc.config sc.secrets sc.log) u opened none v

module _ {World : Type 0} (d : Daemon World) (p : Platform World) (civil : IsCivil d)
    (civil_server : IsCivilServer p) (credit : World → ℕ) (bounded : IsBounded d p credit)
    (rounds : ℕ) (ctx : Context) (sc : DaemonConfig) (fw : Logger)
    (meanwhile : Sys World → Sys World) (behaved : IsWellBehaved credit meanwhile)
    (stop_ctx : Context) where
  opened_ends :
      (u : Sys World) (opened : List ℕ)
      → AreAllocated u.bindings.heap opened
      → (u.cleaner.running || u.cleaner.done) ≡ false
      → load credit u ≤ rounds
      → (t : Sys World) × (r : Started) × (start_opened d p
            (suc rounds)
            ctx
            sc
            fw
            opened
            (some (u, opened, none))
          ≡ some (t, r))
        × IsStarted d p (suc rounds) ctx sc meanwhile stop_ctx u opened none t r
  unfolding stop
  opened_ends u opened a idle h =
      let (v, ran, up) = run_callbacks-IsUp d p civil credit bounded rounds fw ctx u h in
      let t = log_record fw Level.info "daemon ready" [] v in
      let w =
        log_record fw Level.info "shutdown initiated" (text_attr "reason" "instance_stop" ∷ [])
          (meanwhile t) in
      let (x, errs, ends, served) =
        run_shutdown-IsServed d p civil credit bounded rounds fw civil_server
          (enrich_ctx stop_ctx sc.config sc.secrets sc.log) u w v.on_listen_ready opened
          (record {
            does = Does-then up.does (
                Does-trans (logged-Does _ v)
                  (Does-trans (Rely-Does (behaved.keeps t)) (logged-Does _ (meanwhile t))));
            ready_grown = up.ready_grown;
            light = omega (arith, up.light, behaved.spends t);
          })
          a idle h in
      let i : Instance = record { sc = sc; fw = fw; bindings_order = opened; stopped = false } in
      (
        t,
        started i,
        ap (ready d p (suc rounds) ctx sc fw opened) ran,
        (
          i,
          refl,
          record i { stopped = true },
          log_record fw Level.info "daemon stopped" [] x,
          errs,
          ap (stopped_with i) ends,
          IsServed-logged (enrich_ctx stop_ctx sc.config sc.secrets sc.log) u opened none x _
              served,
        ),
      )

  -- What follows the end of openBindings, which without a failure has opened all of the order.
  opening_ends :
      (u : Sys World) (order opened : List ℕ) (failure : Option Error)
      → (failure ≡ none → order ≡ opened)
      → AreAllocated u.bindings.heap opened
      → (u.cleaner.running || u.cleaner.done) ≡ false
      → load credit u ≤ rounds
      → (t : Sys World) × (r : Started) × (start_opened d p
            (suc rounds)
            ctx
            sc
            fw
            order
            (some (u, opened, failure))
          ≡ some (t, r))
        × IsStarted d p (suc rounds) ctx sc meanwhile stop_ctx u opened failure t r
  unfolding start_failed run_shutdown run_callbacks
  opening_ends u order opened none all a idle h =
      let (t, r, ends, is_started) = opened_ends u opened a idle h in
      (
        t,
        r,
        ap (λ l. start_opened d p (suc rounds) ctx sc fw l (some (u, opened, none))) (all refl)
            ∙ ends,
        is_started,
      )
  opening_ends u order opened (some e) all a idle h = (
    (teardown d p ctx fw opened (set_flag u)).0,
    failed e,
    refl,
    (refl, teardown-IsServed d p civil credit bounded rounds fw civil_server ctx u opened e a idle),
  )

  -- A Start whose OnStart returns nil returns, where the bindings are in the store, the service keeps
  -- to the API, the clock does not run backwards, and the fuel is enough for the callbacks that may
  -- be registered, and for the rounds of a readiness probe. It opens the bindings in order. If one
  -- fails, it returns that error and has shut down: no callback, then the servers of the bindings
  -- opened, in reverse order, OnStop once, and the clean-up functions, last registered first. Else it
  -- returns an instance after the OnListenReady callbacks, and the instance's Stop ends too, in
  -- whatever state the service has reached meanwhile within the API: it runs the BeforeShutdown
  -- callbacks, and then shuts down in the same order.
  pub start_resolved_ends :
      (timely : (addr : Addr) → IsTimely p ctx addr) (enough : probe_timeout < probe_pause * rounds)
      (addresses : Addresses) (store : BindingStore) (w : World) (order : List ℕ)
      → credit w ≤ rounds
      → let s = announce fw addresses (initial store fw w) in
        (d.on_start ctx (note (on_start_call ctx) s)).1 ≡ returns none
        → ordered_from_bindings (after_start d ctx s).bindings ≡ ok order
        → AreAllocated (after_start d ctx s).bindings.heap order
        → (t : Sys World) × (r : Started) × (u : Sys World) × (opened : List ℕ) × (failure : Option
            Error)
          × (start_resolved d p (suc rounds) ctx sc fw addresses store w ≡ some (t, r))
          × IsOpened d p credit rounds ctx fw order s u opened failure
          × IsStarted d p (suc rounds) ctx sc meanwhile stop_ctx u opened failure t r
  unfolding start_resolved start_called announce
  start_resolved_ends timely enough addresses store w order h returned iterates a =
      let s = announce fw addresses (initial store fw w) in
      let (u, opened, failure, reached) =
        open_bindings-IsReached d p civil credit bounded rounds fw ctx timely enough s order refl
          (omega (arith, h)) a in
      let o = reached.is_opened.opening in
      let (t, r, ends, is_started) =
        opening_ends u order opened failure
          (λ fine.
            o.split
            ∙ ap (λ l. o.done ++ l) (o.complete fine)
            ∙ append-nil o.done
            ∙ sym o.opened_are)
          reached.allocated reached.idle reached.light in
      (
        t,
        r,
        u,
        opened,
        failure,
        ap (start_called d p (suc rounds) ctx sc fw (after_start d ctx s)) returned
            ∙ ap (start_ordered d p (suc rounds) ctx sc fw (after_start d ctx s)) iterates
            ∙ ap (start_opened d p (suc rounds) ctx sc fw order) reached.ends
            ∙ ends,
        reached.is_opened,
        is_started,
      )
