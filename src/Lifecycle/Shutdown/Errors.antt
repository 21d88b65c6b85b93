-- ===== src/Lifecycle/Shutdown/Errors.antt =====
-- The error that runShutdown returns joins exactly the failures that it logs.
use scaffold_go.Base.{
  ℕ, ◌≡◌, refl, sym, ap, subst, ◌∙◌, String, Option, none, some, List, [], ◌∷◌, ◌++◌, reverse,
  get_elem?, append-nil, eq_of_some, none≢some, Option-cases, inl, inr,
}
use scaffold_go.Go.{
  Outcome, returns, panics, Error, Text, Logger, Attr, text_attr, panic_attr, stack_attr, join,
  LogRecord, Level, error_attr,
}
use scaffold_go.Context.{Context}
use scaffold_go.Binding.{Binding, Server}
use scaffold_go.System.{Sys, Daemon, Phase}
use scaffold_go.System.Rely.{IsCivil}
use scaffold_go.System.Failures.{
  failures, failure_of, Fails, Fails-refl, Fails-trans, Rely-Fails, note-Fails, logged-Fails,
}
use scaffold_go.Platform.{Platform}
use scaffold_go.Cleaner.{clean}
use scaffold_go.Cleaner.Logs.{clean-Fails}
use scaffold_go.Lifecycle.Callbacks.{run_callbacks}
use scaffold_go.Lifecycle.Callbacks.Logs.{run_callbacks-Fails}
use scaffold_go.Lifecycle.Shutdown.{
  collect, recovered, stop_server, shutdown_binding, shutdown_each, call_on_stop, report_clean,
  teardown, run_shutdown,
}
use scaffold_go.Lifecycle.Shutdown.Order.{IsCivilServer}

abbrev err_list : Option Error → List Error
err_list err = collect err []

abbrev error_record : Logger → String → List Attr → LogRecord
error_record log text attrs = record {
  logger = log;
  level = Level.error;
  text = text;
  attrs = attrs;
}

collect-append : (err : Option Error) (errs : List Error) → err_list err ++ errs ≡ collect err errs
collect-append none errs = refl
collect-append (some e) errs = refl

module _ {World : Type 0} where
  -- `failed` must be one of the texts that report a failure, and `panicked` none of them.
  recovered-Fails :
      (log : Logger) (panicked failed : String) (attrs : List Attr)
      → ((e : Error) → failure_of (error_record log failed (attrs ++ error_attr e ∷ [])) ≡ e ∷ [])
      → ((v : Text)
          → failure_of (error_record log panicked (attrs ++ panic_attr v ∷ stack_attr ∷ [])) ≡ [])
      → (s : Sys World) (o : Outcome (Option Error))
      → let (t, err) = recovered log panicked failed attrs (s, o) in Fails (err_list err) s t
  unfolding recovered
  recovered-Fails log panicked failed attrs reports hides s (returns none) = Fails-refl s
  recovered-Fails log panicked failed attrs reports hides s (returns (some e)) =
      logged-Fails (error_record log failed (attrs ++ error_attr e ∷ [])) s (reports e)
  recovered-Fails log panicked failed attrs reports hides s (panics v) =
      logged-Fails (error_record log panicked (attrs ++ panic_attr v ∷ stack_attr ∷ [])) s (hides v)

  report_clean-Fails :
      (log : Logger) (s : Sys World) (err : Option Error)
      → let (t, e) = report_clean log (s, err) in Fails (err_list e) s t
  unfolding report_clean
  report_clean-Fails log s none = Fails-refl s
  report_clean-Fails log s (some e) = logged-Fails _ s refl

  module _ (p : Platform World) (civil : IsCivilServer p) (ctx : Context) (log : Logger) where
    stop_server-Fails :
        (r : ℕ) (b : Binding) (srv : Option Server) (s : Sys World)
        → let (t, err) = stop_server p ctx log r b srv s in Fails (err_list err) s t
    unfolding stop_server
    stop_server-Fails r b none s = Fails-refl s
    stop_server-Fails r b (some srv) s = Fails-trans (note-Fails _ s) (
        Fails-trans (Rely-Fails (civil r ctx _)) (
          recovered-Fails log "binding shutdown panicked" "binding shutdown returned error"
            (text_attr "binding" b.name ∷ []) (λ e. refl) (λ v. refl) _ _))

    shutdown_binding-Fails :
        (r : ℕ) (s : Sys World)
        → let (t, err) = shutdown_binding p ctx log r s in Fails (err_list err) s t
    unfolding shutdown_binding
    shutdown_binding-Fails r s = elim (Option-cases (get_elem? s.bindings.heap r)) [
      | inl e ↦ rw (e, shutdown_binding) (Fails-refl s)
      | inr (b, e) ↦ rw (e, shutdown_binding) (stop_server-Fails r b b.srv s)
    ]

    shutdown_each-Fails :
        (rs : List ℕ) (s : Sys World)
        → let (t, errs) = shutdown_each p ctx log rs s in Fails errs s t
    unfolding shutdown_each
    shutdown_each-Fails [] s = Fails-refl s
    shutdown_each-Fails (r ∷ rs) s =
        let (t, err) = shutdown_binding p ctx log r s in
        let (u, errs) = shutdown_each p ctx log rs t in
        subst (λ l. Fails l s u) (collect-append err errs)
          (Fails-trans (shutdown_binding-Fails r s) (shutdown_each-Fails rs t))

  module _ (d : Daemon World) (p : Platform World) (civil : IsCivil d)
      (civil_server : IsCivilServer p) (ctx : Context) (log : Logger) where
    call_on_stop-Fails :
        (s : Sys World) → let (t, err) = call_on_stop d ctx log s in Fails (err_list err) s t
    unfolding call_on_stop
    call_on_stop-Fails s = Fails-trans (note-Fails _ s) (
        Fails-trans (Rely-Fails (civil.on_stop_rely ctx _)) (
          recovered-Fails log "OnStop panicked" "OnStop returned error" [] (λ e. refl) (λ v. refl) _
            _))

    -- The log gains some failures, and the result joins exactly those, in their order.
    pub IsReported : Sys World → Sys World × Option (List Error) → Type 0
    IsReported s (t, result) =
        (errs : List Error) × (failures t.trace ≡ failures s.trace ++ errs) × (result ≡ join errs)

    teardown-IsReported :
        (order : List ℕ) (s : Sys World) → IsReported s (teardown d p ctx log order s)
    unfolding teardown IsReported
    teardown-IsReported order s =
        let (t, errs) = shutdown_each p ctx log (reverse order) s in
        let (u, stop_err) = call_on_stop d ctx log t in
        let (v, clean_err) = report_clean log (clean d ctx u) in
        let all = Fails-trans (shutdown_each-Fails p civil_server ctx log (reverse order) s) (
          Fails-trans (call_on_stop-Fails t)
            (Fails-trans (clean-Fails d civil ctx u) (report_clean-Fails log _ _))) in
        (_, all.logged_failures, ap (λ l. join (errs ++ l)) (sym (collect-append stop_err _)))

    -- A shutdown that ends, of a service that keeps to the API, returns nil exactly when it logs no
    -- failure, and otherwise the join of precisely the errors that it logs as returned by
    -- srv.Shutdown, OnStop and Clean, in that order; panics and the errors of single clean-up
    -- functions or callbacks are no part of it.
    pub run_shutdown-IsReported :
        (fuel : ℕ) (phase : Option Phase) (order : List ℕ) (s t : Sys World)
        (result : Option (List Error))
        → run_shutdown d p ctx log fuel phase order s ≡ some (t, result)
        → IsReported s (t, result)
    unfolding run_shutdown IsReported
    run_shutdown-IsReported fuel phase order s t result e =
        elim (Option-cases (run_callbacks d ctx log fuel phase s)) [
          | inl endless ↦ absurd (none≢some (rw (endless, run_shutdown) at e))
          | inr (u, ran) ↦
              let same_end : teardown d p ctx log order u ≡ (t, result) =
                eq_of_some (rw (ran, run_shutdown) at e) in
              let (errs, logs, joined) =
                subst (IsReported u) same_end (teardown-IsReported order u) in
              (
                errs,
                logs
                    ∙ ap (λ l. l ++ errs)
                        ((run_callbacks-Fails d civil ctx log fuel phase s u ran).logged_failures
                          ∙ append-nil (failures s.trace)),
                joined,
              )
        ]
