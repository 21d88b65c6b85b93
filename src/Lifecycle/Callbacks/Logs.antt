-- ===== src/Lifecycle/Callbacks/Logs.antt =====
-- What runCallbacks logs is no failure of the shutdown.
use scaffold_go.Base.{
  ℕ, zero, suc, ◌≡◌, refl, Option, none, some, [], get_elem?, subst, eq_of_some, Option-cases, inl,
  inr,
}
use scaffold_go.Go.{Outcome, returns, panics, Logger}
use scaffold_go.Context.{Context}
use scaffold_go.System.{Sys, Daemon, Phase, on_listen_ready_phase, before_shutdown_phase}
use scaffold_go.System.Rely.{IsCivil}
use scaffold_go.System.Failures.{
  Fails, Fails-refl, Fails-trans, Rely-Fails, note-Fails, logged-Fails,
}
use scaffold_go.Lifecycle.Callbacks.{callbacks, report, run_callback, callbacks_from, run_callbacks}

module _ {World : Type 0} where
  report-Fails :
      (log : Logger) (phase : Phase) (o : Outcome (Unit {0})) (s : Sys World)
      → Fails [] s (report log phase o s)
  unfolding report
  report-Fails log phase (returns _) s = Fails-refl s
  report-Fails log on_listen_ready_phase (panics v) s = logged-Fails _ s refl
  report-Fails log before_shutdown_phase (panics v) s = logged-Fails _ s refl

  module _ (d : Daemon World) (civil : IsCivil d) (ctx : Context) (log : Logger) where
    run_callback-Fails :
        (phase : Phase) (fn : ℕ) (s : Sys World) → Fails [] s (run_callback d ctx log phase fn s)
    unfolding run_callback
    run_callback-Fails phase fn s =
        Fails-trans (note-Fails _ s)
          (Fails-trans (Rely-Fails (civil.callback_rely fn ctx _)) (report-Fails _ _ _ _))

    callbacks_from-Fails :
        (fuel : ℕ) (phase : Phase) (i : ℕ) (s t : Sys World)
        → callbacks_from d ctx log fuel phase i s ≡ some t
        → Fails [] s t
    unfolding callbacks_from
    callbacks_from-Fails zero phase i s t e = cc
    callbacks_from-Fails (suc fuel) phase i s t e =
        elim (Option-cases (get_elem? (callbacks phase s) i)) [
          | inl past ↦
              let stop : some s ≡ some t = rw (past, callbacks_from) at e in
              subst (Fails [] s) (eq_of_some stop) (Fails-refl s)
          | inr (fn, at_i) ↦
              Fails-trans (run_callback-Fails phase fn s)
                (callbacks_from-Fails fuel phase (suc i) _ t (rw (at_i, callbacks_from) at e))
        ]

    pub run_callbacks-Fails :
        (fuel : ℕ) (phase : Option Phase) (s t : Sys World)
        → run_callbacks d ctx log fuel phase s ≡ some t
        → Fails [] s t
    unfolding run_callbacks
    run_callbacks-Fails fuel none s t e = subst (Fails [] s) (eq_of_some e) (Fails-refl s)
    run_callbacks-Fails fuel (some phase) s t e = callbacks_from-Fails fuel phase 0 s t e
