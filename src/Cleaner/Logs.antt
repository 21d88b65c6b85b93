-- ===== src/Cleaner/Logs.antt =====
-- What the cleaner logs of its functions is no failure of the shutdown itself.
use scaffold_go.Base.{
  ℕ, refl, ◌||◌, Option, none, some, List, [], ◌∷◌, reverse, Bool-cases, inl, inr,
}
use scaffold_go.Go.{Outcome, returns, panics, Error, Logger}
use scaffold_go.Context.{Context}
use scaffold_go.System.{Sys, Daemon}
use scaffold_go.System.Rely.{IsCivil}
use scaffold_go.System.Failures.{
  Fails, Fails-refl, Fails-trans, Rely-Fails, note-Fails, logged-Fails,
}
use scaffold_go.Cleaner.{report, run_each, begin_clean, clean}

module _ {World : Type 0} where
  report-Fails :
      (log : Logger) (o : Outcome (Option Error)) (s : Sys World) → Fails [] s (report log o s)
  unfolding report
  report-Fails log (returns none) s = Fails-refl s
  report-Fails log (returns (some e)) s = logged-Fails _ s refl
  report-Fails log (panics v) s = logged-Fails _ s refl

  module _ (d : Daemon World) (civil : IsCivil d) (ctx : Context) where
    run_each-Fails : (fns : List ℕ) (s : Sys World) → Fails [] s (run_each d ctx fns s)
    unfolding run_each
    run_each-Fails [] s = Fails-refl s
    run_each-Fails (fn ∷ fns) s = Fails-trans (note-Fails _ s) (
        Fails-trans (Rely-Fails (civil.clean_rely fn ctx _))
          (Fails-trans (report-Fails _ _ _) (run_each-Fails fns _)))

    pub clean-Fails : (s : Sys World) → Fails [] s (clean d ctx s).0
    unfolding clean
    clean-Fails s = elim (Bool-cases (s.cleaner.running || s.cleaner.done)) [
      | inl started ↦ rw (started, clean) (Fails-refl s)
      | inr idle ↦
          rw (idle, clean)
            (record {
              logged_failures =
                  (run_each-Fails (reverse s.cleaner.stack) (begin_clean s)).logged_failures;
            })
    ]
