-- ===== src/Cleaner.antt =====
-- cleaner.go. The functions that Clean runs are the service's: `d.clean_function`.
pub mod Order
pub mod Logs
pub mod Concurrent
use scaffold_go.Base.{
  ℕ, Bool, true, false, ◌||◌, Option, none, some, List, [], ◌∷◌, ◌++◌, reverse, if◌then◌else◌,
}
use scaffold_go.Go.{
  Outcome, returns, panics, Error, message, Text, sprintf, Logger, Level, error_attr, panic_attr,
  stack_attr,
}
use scaffold_go.Context.{Context}
use scaffold_go.System.{Cleaner, Sys, Daemon, clean_call, note, log_record}

abbrev pub fresh_cleaner : Logger → Cleaner
fresh_cleaner log = record { log = log; stack = []; running = false; done = false }

unfoldable pub new_cleaner : Option Logger → Outcome Cleaner
new_cleaner none = panics (sprintf "scaffold: NewCleaner called with nil *slog.Logger" [])
new_cleaner (some log) = returns (fresh_cleaner log)

-- Cleaner.Add
unfoldable pub add : ℕ → Cleaner → Cleaner × Outcome (Unit {0})
add fn c =
    if c.running || c.done
    then (c, panics (sprintf "scaffold: Cleaner.Add called after Clean started" []))
    else (record c { stack = c.stack ++ fn ∷ [] }, returns tt)

abbrev pub clean_twice_error : Error
clean_twice_error = message (sprintf "scaffold: Cleaner.Clean called more than once" [])

module _ {World : Type 0} where
  abbrev pub set_cleaner : Cleaner → Sys World → Sys World
  set_cleaner c s = record s { cleaner = c }

  -- How runOne logs the end of one function.
  report : Logger → Outcome (Option Error) → Sys World → Sys World
  report log (returns none) s = s
  report log (returns (some e)) s =
      log_record log Level.error "cleaner function returned error" (error_attr e ∷ []) s
  report log (panics v) s =
      log_record log Level.error "cleaner function panicked" (panic_attr v ∷ stack_attr ∷ []) s

  unfoldable pub run_one : Daemon World → Context → ℕ → Sys World → Sys World
  unfolding report
  run_one d ctx fn s =
      let (t, end) = d.clean_function fn ctx (note (clean_call fn) s) in report s.cleaner.log end t

  -- The loop of Clean over the functions in the order in which it runs them.
  unfoldable pub run_each : Daemon World → Context → List ℕ → Sys World → Sys World
  unfolding run_one
  run_each d ctx [] s = s
  run_each d ctx (fn ∷ fns) s = run_each d ctx fns (run_one d ctx fn s)

  abbrev pub begin_clean : Sys World → Sys World
  begin_clean s = set_cleaner (record (s.cleaner) { running = true; stack = [] }) s

  abbrev pub end_clean : Sys World → Sys World
  end_clean s = set_cleaner (record (s.cleaner) { running = false; done = true }) s

  -- `for i := len(snapshot) - 1; i >= 0; i--` runs the snapshot from its end.
  unfoldable pub clean : Daemon World → Context → Sys World → Sys World × Option Error
  clean d ctx s =
      if s.cleaner.running || s.cleaner.done
      then (s, some clean_twice_error)
      else (end_clean (run_each d ctx (reverse s.cleaner.stack) (begin_clean s)), none)
