-- ===== src/Lifecycle/Callbacks.antt =====
-- AddOnListenReady, AddBeforeShutdown and runCallbacks of scaffold.go.
pub mod Order
pub mod Cost
pub mod Logs
use scaffold_go.Base.{ℕ, zero, suc, String, Option, none, some, List, [], ◌∷◌, ◌++◌, get_elem?}
use scaffold_go.Go.{Outcome, returns, panics, Logger, Level, panic_attr, stack_attr}
use scaffold_go.Context.{Context}
use scaffold_go.System.{
  Sys, Daemon, Phase, on_listen_ready_phase, before_shutdown_phase, callback_call, note, log_record,
}

-- `phase+" callback panicked"`
abbrev panicked_text : Phase → String
panicked_text on_listen_ready_phase = "on_listen_ready callback panicked"
panicked_text before_shutdown_phase = "before_shutdown callback panicked"

module _ {World : Type 0} where
  unfoldable pub add_on_listen_ready : ℕ → Sys World → Sys World
  add_on_listen_ready fn s = record s { on_listen_ready = s.on_listen_ready ++ fn ∷ [] }

  unfoldable pub add_before_shutdown : ℕ → Sys World → Sys World
  add_before_shutdown fn s = record s { before_shutdown = s.before_shutdown ++ fn ∷ [] }

  -- The slice that a pointer to one of the two lists leads to, as it is now.
  abbrev pub callbacks : Phase → Sys World → List ℕ
  callbacks on_listen_ready_phase s = s.on_listen_ready
  callbacks before_shutdown_phase s = s.before_shutdown

  report : Logger → Phase → Outcome (Unit {0}) → Sys World → Sys World
  report log phase (returns _) s = s
  report log phase (panics v) s =
      log_record log Level.error (panicked_text phase) (panic_attr v ∷ stack_attr ∷ []) s

  module _ (d : Daemon World) (ctx : Context) (log : Logger) where
    unfoldable pub run_callback : Phase → ℕ → Sys World → Sys World
    unfolding report
    run_callback phase fn s =
        let (t, end) = d.callback fn ctx (note (callback_call phase fn) s) in report log phase end t

    -- The loop from index `i`: the length is read again on each round, so that a callback may
    -- register more. `none` means that the fuel ran out.
    unfoldable pub callbacks_from : ℕ → Phase → ℕ → Sys World → Option (Sys World)
    unfolding run_callback
    callbacks_from zero phase i s = none
    callbacks_from (suc fuel) phase i s = elim (get_elem? (callbacks phase s) i) [
      | none ↦ some s
      | some fn ↦ callbacks_from fuel phase (suc i) (run_callback phase fn s)
    ]

    -- `none` for the phase is the nil pointer.
    unfoldable pub run_callbacks : ℕ → Option Phase → Sys World → Option (Sys World)
    unfolding callbacks_from
    run_callbacks fuel none s = some s
    run_callbacks fuel (some phase) s = callbacks_from fuel phase 0 s
