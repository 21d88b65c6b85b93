-- ===== src/Lifecycle/Shutdown/Ends.antt =====
-- A shutdown with its callbacks ends, as it should.
use scaffold_go.Base.{ℕ, ◌+◌, ◌≤◌, ◌<◌, ◌≡◌, false, ◌||◌, Option, some, List, length}
use scaffold_go.Go.{Error, Logger}
use scaffold_go.Context.{Context}
use scaffold_go.System.{Sys, Daemon, Phase}
use scaffold_go.System.Rely.{IsCivil}
use scaffold_go.Platform.{Platform}
use scaffold_go.Lifecycle.Callbacks.{callbacks}
use scaffold_go.Lifecycle.Callbacks.Order.{run_callbacks_total}
use scaffold_go.Lifecycle.Shutdown.{teardown, run_shutdown}
use scaffold_go.Lifecycle.Shutdown.Servers.{AreAllocated}
use scaffold_go.Lifecycle.Shutdown.Order.{IsCivilServer, IsShutDown, run_shutdown-IsShutDown}
use scaffold_go.Lifecycle.Shutdown.Errors.{IsReported, run_shutdown-IsReported}

module _ {World : Type 0} (d : Daemon World) (p : Platform World) (civil : IsCivil d)
    (civil_server : IsCivilServer p) (ctx : Context) (log : Logger) (phase : Phase)
    (credit : World → ℕ)
    (spends : (fn : ℕ) (s : Sys World)
      → let t = (d.callback fn ctx s).0 in
        length (callbacks phase t) + credit t.world
        ≤ length (callbacks phase s) + credit s.world) where
  run_shutdown_total :
      (fuel : ℕ) (order : List ℕ) (s : Sys World)
      → length (callbacks phase s) + credit s.world < fuel
      → (t : Sys World) × (errs : Option (List Error)) × (run_shutdown d p ctx log fuel
            (some phase)
            order
            s
          ≡ some (t, errs))
  unfolding run_shutdown
  run_shutdown_total fuel order s h =
      let (u, ran) = run_callbacks_total d civil ctx log phase credit spends fuel s h in
      ((teardown d p ctx log order u).0, (teardown d p ctx log order u).1, rw (ran, run_shutdown))

  -- A shutdown of bindings that are in the store, starting on an idle cleaner, where the service
  -- keeps to the API and its callbacks register only finitely many others, ends when the fuel exceeds
  -- those registered and those that may still be. It makes every call of the sequence in order, and
  -- returns the errors that it logs.
  pub run_shutdown_ends :
      (fuel : ℕ) (order : List ℕ) (s : Sys World)
      → AreAllocated s.bindings.heap order
      → (s.cleaner.running || s.cleaner.done) ≡ false
      → length (callbacks phase s) + credit s.world < fuel
      → (t : Sys World) × (errs : Option (List Error)) × (run_shutdown d p ctx log fuel
            (some phase)
            order
            s
          ≡ some (t, errs))
        × IsShutDown d p civil civil_server ctx log (some phase) order s t
        × IsReported d p civil civil_server ctx log s (t, errs)
  run_shutdown_ends fuel order s a idle h =
      let (t, errs, ends) = run_shutdown_total fuel order s h in
      (
        t,
        errs,
        ends,
        run_shutdown-IsShutDown d p civil civil_server ctx log fuel (some phase) order s t errs a
            idle ends,
        run_shutdown-IsReported d p civil civil_server ctx log fuel (some phase) order s t errs
            ends,
      )
