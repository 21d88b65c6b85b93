-- ===== src/Api/Whole.antt =====
-- A whole Serve, and a whole Start with the Stop of its instance, of a service that uses the exported
-- API only.
use scaffold_go.Base.{ℕ, suc, ◌*◌, ◌≤◌, ◌<◌, ◌≡◌, Option, some}
use scaffold_go.Go.{Error}
use scaffold_go.Context.{Context}
use scaffold_go.Net.{Addr}
use scaffold_go.Http.{Handler}
use scaffold_go.System.{Sys, Daemon}
use scaffold_go.Platform.{Platform}
use scaffold_go.Lifecycle.Probe.{probe_timeout, probe_pause}
use scaffold_go.Lifecycle.Probe.Ends.{IsTimely}
use scaffold_go.Lifecycle.Shutdown.Order.{IsCivilServer}
use scaffold_go.Lifecycle.Options.{Options}
use scaffold_go.Lifecycle.Run.{IsWellBehaved}
use scaffold_go.Lifecycle.Start.{Started, options_or_zero, start}
use scaffold_go.Lifecycle.Start.Whole.{IsStartDone, start_total}
use scaffold_go.Lifecycle.Serve.{Served, serve}
use scaffold_go.Lifecycle.Serve.Whole.{IsServeDone, serve_total}
use scaffold_go.Api.{Script, scripted}
use scaffold_go.Api.Civil.{scripted-IsCivil}
use scaffold_go.Api.Cost.{IsPaid, IsFree, scripted-IsBounded}
use scaffold_go.Api.Store.{AreGivenWellFormed, perform-IsWellFormed}

module _ {World : Type 0} (on_start on_stop : Script World (Option Error))
    (callback : ℕ → Script World (Unit {0})) (error_handler : ℕ → Handler)
    (clean_function : ℕ → Script World (Option Error)) where
  abbrev pub service : Daemon World
  service = scripted on_start on_stop callback error_handler clean_function

  -- Serve, of a service whose functions change scaffold's state only by calls of Add, of the setters of a
  -- binding, of Cleaner.Add, AddOnListenReady and AddBeforeShutdown (they do not run the cleaner, nor
  -- assign the fields of DaemonConfig), and whose middlewares, applied to a handler, return one, ends on
  -- every path, whatever these functions choose to call in each state, return, or panic with. The fuel is
  -- enough for the rounds of a readiness probe and the callbacks that the service can pay for; the network
  -- and the clock register none, and the clock does not run backwards; the bindings given are well-formed,
  -- and what runs during a wait or a server's shutdown keeps to these calls. A bad address exits with the
  -- failure code before anything is called. A panic of OnStart is Serve's own, and nothing is called after
  -- it. An error of OnStart, or bindings that cannot be iterated, exit with the failure code after OnStop
  -- and the clean-up functions. Else the bindings are opened in the order of their Adds; a failure exits
  -- with the failure code, and otherwise the code is success after the callbacks of both phases, also when
  -- OnStop, a server's Shutdown or the cleaner returns an error; on both, the servers opened are shut down
  -- in reverse order, and then OnStop and the clean-up functions run.
  pub serve_scripted_total :
      (p : Platform World) (civil_server : IsCivilServer p) (credit : World → ℕ)
      (start_paid : IsPaid credit on_start) (callback_paid : (n : ℕ) → IsPaid credit (callback n))
      (free : IsFree credit p) (rounds : ℕ) (o : Options) (ctx : Context)
      (waits : IsWellBehaved credit (λ s. (p.await_stop ctx s).0))
      (timely : (c : Context) (addr : Addr) → IsTimely p c addr)
      (enough : probe_timeout < probe_pause * rounds) (given : AreGivenWellFormed o.bindings)
      (w : World)
      → credit w ≤ rounds
      → (t : Sys World) × (r : Served) × (serve service p (suc rounds) ctx o w ≡ some (t, r))
        × IsServeDone service p credit rounds o ctx w t r
  serve_scripted_total p civil_server credit start_paid callback_paid free rounds o ctx waits timely
        enough given w h =
      serve_total service p
        (scripted-IsCivil on_start on_stop callback error_handler clean_function) civil_server
        credit
        (scripted-IsBounded credit on_start on_stop callback error_handler clean_function p
          start_paid callback_paid free)
        rounds o ctx waits timely enough (λ c s kept. perform-IsWellFormed on_start c s kept) given
        w h

  -- Start, of a service whose functions change scaffold's state only by calls of Add, of the setters of a
  -- binding, of Cleaner.Add, AddOnListenReady and AddBeforeShutdown (they do not run the cleaner, stop the
  -- instance, nor assign the fields of DaemonConfig), and whose middlewares, applied to a handler, return
  -- one, returns on every path, whatever these functions choose to call in each state, return, or panic
  -- with; under the conditions of serve_scripted_total. A bad address is returned as the error before
  -- anything is called. A panic of OnStart is Start's own, and nothing is called after it. An error of
  -- OnStart, or that the bindings cannot be iterated, is returned after OnStop and the clean-up functions.
  -- Else the bindings are opened in the order of their Adds; a failure is returned after the shutdown of
  -- those opened, in reverse order, OnStop and the clean-up functions. Otherwise Start returns an instance
  -- after the OnListenReady callbacks; its Stop, called from outside the service's own functions, in
  -- whatever state the service has reached meanwhile, ends after the BeforeShutdown callbacks and the same
  -- shutdown.
  pub start_scripted_total :
      (p : Platform World) (civil_server : IsCivilServer p) (credit : World → ℕ)
      (start_paid : IsPaid credit on_start) (callback_paid : (n : ℕ) → IsPaid credit (callback n))
      (free : IsFree credit p) (rounds : ℕ) (meanwhile : Sys World → Sys World)
      (behaved : IsWellBehaved credit meanwhile) (stop_ctx ctx : Context)
      (timely : (c : Context) (addr : Addr) → IsTimely p c addr)
      (enough : probe_timeout < probe_pause * rounds) (opts : Option Options)
      (given : AreGivenWellFormed (options_or_zero opts).bindings) (w : World)
      → credit w ≤ rounds
      → (t : Sys World) × (r : Started) × (start service p (suc rounds) ctx opts w ≡ some (t, r))
        × IsStartDone service p credit rounds meanwhile stop_ctx (options_or_zero opts) ctx w t r
  start_scripted_total p civil_server credit start_paid callback_paid free rounds meanwhile behaved
        stop_ctx ctx timely enough opts given w h =
      start_total service p
        (scripted-IsCivil on_start on_stop callback error_handler clean_function) civil_server
        credit
        (scripted-IsBounded credit on_start on_stop callback error_handler clean_function p
          start_paid callback_paid free)
        rounds meanwhile behaved stop_ctx enough w h timely
        (λ c s kept. perform-IsWellFormed on_start c s kept) ctx opts given
