-- ===== src/Lifecycle/Shutdown.antt =====
-- shutdownBinding, callOnStop and runShutdown of scaffold.go.
pub mod Servers
pub mod Order
pub mod Errors
pub mod Ends
use scaffold_go.Base.{ℕ, String, Option, none, some, List, [], ◌∷◌, ◌++◌, reverse, get_elem?}
use scaffold_go.Go.{
  Outcome, returns, panics, Error, join, Logger, Level, Attr, text_attr, error_attr, panic_attr,
  stack_attr,
}
use scaffold_go.Context.{Context}
use scaffold_go.Binding.{Binding, Server}
use scaffold_go.System.{Sys, Daemon, Phase, on_stop_call, shutdown_call, note, log_record}
use scaffold_go.Platform.{Platform}
use scaffold_go.Cleaner.{clean}
use scaffold_go.Lifecycle.Callbacks.{run_callbacks}

-- `append(errs, err)` of an error that is not nil.
abbrev pub collect : Option Error → List Error → List Error
collect none errs = errs
collect (some e) errs = e ∷ errs

module _ {World : Type 0} where
  -- The end of a call whose panic is recovered and logged, and whose error is logged and returned.
  recovered :
      Logger
      → String
      → String
      → List Attr
      → Sys World × Outcome (Option Error)
      → Sys World × Option Error
  recovered log panicked failed attrs (s, returns none) = (s, none)
  recovered log panicked failed attrs (s, returns (some e)) =
      (log_record log Level.error failed (attrs ++ error_attr e ∷ []) s, some e)
  recovered log panicked failed attrs (s, panics v) =
      (log_record log Level.error panicked (attrs ++ panic_attr v ∷ stack_attr ∷ []) s, none)

  module _ (p : Platform World) (ctx : Context) (log : Logger) where
    -- A binding with no server is a ServeFunc binding, or was never opened.
    stop_server : ℕ → Binding → Option Server → Sys World → Sys World × Option Error
    unfolding recovered
    stop_server r b none s = (s, none)
    stop_server r b (some srv) s =
        recovered log "binding shutdown panicked" "binding shutdown returned error"
          (text_attr "binding" b.name ∷ []) (p.server_shutdown r ctx (note (shutdown_call r ctx) s))

    unfoldable pub shutdown_binding : ℕ → Sys World → Sys World × Option Error
    unfolding stop_server
    shutdown_binding r s = elim (get_elem? s.bindings.heap r) [
      | none ↦ (s, none)
      | some b ↦ stop_server r b b.srv s
    ]

    -- The loop of runShutdown over the bindings in the order in which it stops them.
    unfoldable pub shutdown_each : List ℕ → Sys World → Sys World × List Error
    unfolding shutdown_binding
    shutdown_each [] s = (s, [])
    shutdown_each (r ∷ rs) s =
        let (t, err) = shutdown_binding r s in
        let (u, errs) = shutdown_each rs t in (u, collect err errs)

  unfoldable pub call_on_stop :
      Daemon World → Context → Logger → Sys World → Sys World × Option Error
  unfolding recovered
  call_on_stop d ctx log s =
      recovered log "OnStop panicked" "OnStop returned error" []
        (d.on_stop ctx (note (on_stop_call ctx) s))

  report_clean : Logger → Sys World × Option Error → Sys World × Option Error
  report_clean log (s, none) = (s, none)
  report_clean log (s, some e) =
      (log_record log Level.error "cleaner returned error" (error_attr e ∷ []) s, some e)

  module _ (d : Daemon World) (p : Platform World) (ctx : Context) (log : Logger) where
    -- What follows the callbacks: the bindings in reverse order, OnStop, the cleaner.
    unfoldable pub teardown : List ℕ → Sys World → Sys World × Option (List Error)
    unfolding shutdown_each call_on_stop report_clean clean
    teardown order s =
        let (t, errs) = shutdown_each p ctx log (reverse order) s in
        let (u, stop_err) = call_on_stop d ctx log t in
        let (v, clean_err) = report_clean log (clean d ctx u) in
        (v, join (errs ++ collect stop_err (collect clean_err [])))

    -- `none` for the phase is the nil pointer of the paths on which the daemon never became ready.
    -- The result is `none` if the fuel for the callbacks runs out.
    unfoldable pub run_shutdown :
        ℕ → Option Phase → List ℕ → Sys World → Option (Sys World × Option (List Error))
    run_shutdown fuel phase order s = elim (run_callbacks d ctx log fuel phase s) [
      | none ↦ none
      | some t ↦ some (teardown order t)
    ]
