-- ===== src/Lifecycle/Callbacks/Cost.antt =====
-- The callbacks that are registered, and those that may still be, do not grow over runCallbacks.
use scaffold_go.Base.{
  ℕ, zero, suc, ◌+◌, ◌≤◌, ◌≡◌, refl, ap, Option, none, some, List, length, length-append, get_elem?,
  arith, Option-cases, inl, inr, subst,
}
use scaffold_go.Go.{Outcome, returns, panics, Logger}
use scaffold_go.Context.{Context}
use scaffold_go.System.{
  Sys, Daemon, Phase, on_listen_ready_phase, before_shutdown_phase, callback_call, note,
}
use scaffold_go.System.Rely.{Grows, Steady}
use scaffold_go.Lifecycle.Callbacks.{callbacks, report, run_callback, callbacks_from, run_callbacks}

module _ {World : Type 0} (credit : World → ℕ) where
  -- The callbacks of both phases, and what `credit` reads off the state that the service keeps.
  abbrev pub load : Sys World → ℕ
  load s = length s.on_listen_ready + length s.before_shutdown + credit s.world

  length-Grows {ℓ} : {A : Type ℓ} {xs ys : List A} → Grows xs ys → length xs ≤ length ys
  length-Grows {xs = xs} g = omega (arith, ap length g.grown, length-append xs g.added)

  -- What does not add to the load adds to that of no phase, since the lists only grow.
  pub load-phase :
      (phase : Phase) (s t : Sys World)
      → Steady s t
      → load t ≤ load s
      → length (callbacks phase t) + credit t.world ≤ length (callbacks phase s) + credit s.world
  load-phase on_listen_ready_phase s t steady h = omega (arith, length-Grows steady.before_grows)
  load-phase before_shutdown_phase s t steady h = omega (arith, length-Grows steady.ready_grows)

  pub phase-load :
      (phase : Phase) (s : Sys World) → length (callbacks phase s) + credit s.world ≤ load s
  phase-load on_listen_ready_phase s = omega arith
  phase-load before_shutdown_phase s = omega arith

  load-report :
      (log : Logger) (phase : Phase) (o : Outcome (Unit {0})) (s : Sys World)
      → load (report log phase o s) ≡ load s
  unfolding report
  load-report log phase (returns _) s = refl
  load-report log phase (panics v) s = refl

  abbrev IsUnder : ℕ → Option (Sys World) → Type 0
  IsUnder bound none = Unit
  IsUnder bound (some t) = load t ≤ bound

  module _ (d : Daemon World) (ctx : Context) (log : Logger)
      (spends : (fn : ℕ) (s : Sys World) → load (d.callback fn ctx s).0 ≤ load s) where
    load-run_callback :
        (phase : Phase) (fn : ℕ) (s : Sys World) → load (run_callback d ctx log phase fn s) ≤ load s
    unfolding run_callback
    load-run_callback phase fn s =
        let called = note (callback_call phase fn) s in
        let (t, end) = d.callback fn ctx called in
        omega (arith, load-report log phase end t, spends fn called)

    callbacks_from-IsUnder :
        (bound fuel : ℕ) (phase : Phase) (i : ℕ) (s : Sys World)
        → load s ≤ bound
        → IsUnder bound (callbacks_from d ctx log fuel phase i s)
    unfolding callbacks_from
    callbacks_from-IsUnder bound zero phase i s h = tt
    callbacks_from-IsUnder bound (suc fuel) phase i s h =
        elim (Option-cases (get_elem? (callbacks phase s) i)) [
          | inl past ↦ rw (past, callbacks_from) h
          | inr (fn, at_i) ↦
              rw (at_i, callbacks_from)
                (callbacks_from-IsUnder bound fuel phase (suc i) (run_callback d ctx log phase fn s)
                  (omega (arith, load-run_callback phase fn s)))
        ]

    pub load-run_callbacks :
        (fuel : ℕ) (phase : Phase) (s t : Sys World)
        → run_callbacks d ctx log fuel (some phase) s ≡ some t
        → load t ≤ load s
    unfolding run_callbacks
    load-run_callbacks fuel phase s t ran =
        subst (IsUnder (load s)) ran (callbacks_from-IsUnder (load s) fuel phase 0 s (omega arith))
