-- ===== src/Cleaner/Order.antt =====
-- The order in which the cleaner runs its functions, and what later calls get (cleaner.go).
use scaffold_go.Base.{
  ℕ, ◌≡◌, refl, ap, ap₂, true, false, ◌||◌, ◌&&◌, Option, none, some, List, [], ◌∷◌, ◌++◌, map,
  reverse, arith, ◌↔◌, if◌then◌else◌,
}
use scaffold_go.Go.{Outcome, returns, panics, Error, Logger}
use scaffold_go.Context.{Context}
use scaffold_go.System.{Cleaner, Sys, Daemon, clean_call, calls}
use scaffold_go.System.Rely.{
  IsCivil, Does, Does-refl, Does-trans, Rely-Does, logged-Does, note-Does,
}
use scaffold_go.Cleaner.{clean_twice_error, add, report, run_one, run_each, begin_clean, clean}

-- The cleaner is never both running and done, and holds no functions while it is either.
pub record IsCoherent (c : Cleaner) : Type 0 where
  pub not_both : (c.running && c.done) ≡ false
  pub emptied : (c.running || c.done) ≡ true → c.stack ≡ []

-- `Add` panics exactly when Clean has started, and then changes nothing; otherwise it pushes.
add_lem :
    (fn : ℕ) (c : Cleaner)
    → (((add fn c).1 ≡ returns tt) ↔ ((c.running || c.done) ≡ false))
      × ((add fn c).0.stack ≡ (if c.running || c.done then c.stack else c.stack ++ fn ∷ []))
      × (IsCoherent c → IsCoherent (add fn c).0)
unfolding add
add_lem fn c = ((λ e. ground arith, λ e. ground arith), ground arith, λ h. ground arith)

module _ {World : Type 0} where
  report-Does :
      (log : Logger) (o : Outcome (Option Error)) (s : Sys World) → Does [] s (report log o s)
  unfolding report
  report-Does log (returns none) s = Does-refl s
  report-Does log (returns (some e)) s = logged-Does _ s
  report-Does log (panics v) s = logged-Does _ s

  module _ (d : Daemon World) (civil : IsCivil d) (ctx : Context) where
    run_one-Does : (fn : ℕ) (s : Sys World) → Does (clean_call fn ∷ []) s (run_one d ctx fn s)
    unfolding run_one
    run_one-Does fn s =
        Does-trans (note-Does _ s)
          (Does-trans (Rely-Does (civil.clean_rely fn ctx _)) (report-Does _ _ _))

    run_each-Does :
        (fns : List ℕ) (s : Sys World) → Does (map clean_call fns) s (run_each d ctx fns s)
    unfolding run_each
    run_each-Does [] s = Does-refl s
    run_each-Does (fn ∷ fns) s = Does-trans (run_one-Does fn s) (run_each-Does fns _)

    -- The first Clean of a service that keeps to the API runs every registered function exactly
    -- once, last registered first, whatever each returns and whether it panics. It returns nil, and
    -- leaves the cleaner done and empty.
    pub clean_first :
        (s : Sys World)
        → (s.cleaner.running || s.cleaner.done) ≡ false
        → let (t, err) = clean d ctx s in
          (err ≡ none)
          × (calls t.trace ≡ calls s.trace ++ map clean_call (reverse s.cleaner.stack))
          × (t.cleaner.running ≡ false)
          × (t.cleaner.done ≡ true)
          × (t.cleaner.stack ≡ [])
    unfolding clean
    clean_first s idle =
        let runs = run_each-Does (reverse s.cleaner.stack) (begin_clean s) in
        rw (idle, clean) (refl, runs.calls_made, refl, refl, runs.steady.stack_kept refl)

  clean-started :
      (d : Daemon World) (ctx : Context) (s : Sys World)
      → (s.cleaner.running || s.cleaner.done) ≡ true
      → clean d ctx s ≡ (s, some clean_twice_error)
  unfolding clean
  clean-started d ctx s started = rw (started, clean)

  -- After a first Clean of a service that keeps to the API, every later Clean, with any context,
  -- returns the error of a second Clean and changes nothing; so does a Clean made while another one
  -- still runs.
  clean_twice :
      (d : Daemon World) (civil : IsCivil d) (ctx ctx' : Context) (s t : Sys World)
      → (s.cleaner.running || s.cleaner.done) ≡ false
      → let u = (clean d ctx s).0 in
        (clean d ctx' u ≡ (u, some clean_twice_error))
        × (t.cleaner.running ≡ true → clean d ctx' t ≡ (t, some clean_twice_error))
  clean_twice d civil ctx ctx' s t idle =
      let (_, _, stopped, done, _) = clean_first d civil ctx s idle in
      (
        clean-started d ctx' _ (ap₂ ◌||◌ stopped done),
        λ runs. clean-started d ctx' t (ap (λ b. b || t.cleaner.done) runs),
      )
