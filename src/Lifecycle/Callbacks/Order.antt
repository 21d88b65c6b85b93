-- ===== src/Lifecycle/Callbacks/Order.antt =====
-- Every callback runs once, in the order of registration, those registered meanwhile included.
use scaffold_go.Base.{
  ℕ, zero, suc, ◌+◌, ◌-◌, ◌≤◌, ◌<◌, ◌≡◌, refl, sym, ap, subst, none, some, List, [], ◌∷◌, ◌++◌, map,
  length, length-append, get_elem?, drop, eq_of_some, arith, Option-cases, inl, inr,
}
use scaffold_go.Go.{Outcome, returns, panics, Logger}
use scaffold_go.Context.{Context}
use scaffold_go.System.{
  Sys, Daemon, Phase, on_listen_ready_phase, before_shutdown_phase, Call, callback_call, note,
}
use scaffold_go.System.Rely.{
  Grows, IsCivil, Steady, Does, Does-refl, Does-trans, Rely-Does, logged-Does, note-Does,
}
use scaffold_go.Lifecycle.Callbacks.{callbacks, report, run_callback, callbacks_from, run_callbacks}

module _ {ℓ} {A : Type ℓ} where
  drop-past : (xs : List A) (i : ℕ) → get_elem? xs i ≡ none → drop i xs ≡ []
  drop-past [] zero e = refl
  drop-past [] (suc i) e = refl
  drop-past (x ∷ xs) zero e = cc
  drop-past (x ∷ xs) (suc i) e = drop-past xs i e

  drop-at :
      (xs ys : List A) (i : ℕ) (x : A)
      → get_elem? xs i ≡ some x
      → drop i (xs ++ ys) ≡ x ∷ drop (suc i) (xs ++ ys)
  drop-at [] ys i x e = cc
  drop-at (z ∷ xs) ys zero x e = ap (λ w. w ∷ xs ++ ys) (eq_of_some e)
  drop-at (z ∷ xs) ys (suc i) x e = drop-at xs ys i x e

  get_elem?-lt : (xs : List A) (i : ℕ) (x : A) → get_elem? xs i ≡ some x → i < length xs
  get_elem?-lt [] i x e = cc
  get_elem?-lt (y ∷ xs) zero x e = omega arith
  get_elem?-lt (y ∷ xs) (suc i) x e = omega (arith, get_elem?-lt xs i x e)

  drop-grown :
      (xs ys : List A) (i : ℕ) (x : A)
      → Grows xs ys
      → get_elem? xs i ≡ some x
      → drop i ys ≡ x ∷ drop (suc i) ys
  drop-grown xs ys i x g e = rw g.grown (drop-at xs g.added i x e)

module _ {World : Type 0} where
  callbacks-Grows :
      (phase : Phase) {s t : Sys World} → Steady s t → Grows (callbacks phase s) (callbacks phase t)
  callbacks-Grows on_listen_ready_phase h = h.ready_grows
  callbacks-Grows before_shutdown_phase h = h.before_grows

  report-Does :
      (log : Logger) (phase : Phase) (o : Outcome (Unit {0})) (s : Sys World)
      → Does [] s (report log phase o s)
  unfolding report
  report-Does log phase (returns _) s = Does-refl s
  report-Does log phase (panics v) s = logged-Does _ s

  module _ (d : Daemon World) (civil : IsCivil d) (ctx : Context) (log : Logger) where
    run_callback-Does :
        (phase : Phase) (fn : ℕ) (s : Sys World)
        → Does (callback_call phase fn ∷ []) s (run_callback d ctx log phase fn s)
    unfolding run_callback
    run_callback-Does phase fn s =
        Does-trans (note-Does _ s)
          (Does-trans (Rely-Does (civil.callback_rely fn ctx _)) (report-Does _ _ _ _))

    callbacks_from-Does :
        (fuel : ℕ) (phase : Phase) (i : ℕ) (s t : Sys World)
        → callbacks_from d ctx log fuel phase i s ≡ some t
        → Does (map (callback_call phase) (drop i (callbacks phase t))) s t
    unfolding callbacks_from
    callbacks_from-Does zero phase i s t e = cc
    callbacks_from-Does (suc fuel) phase i s t e =
        elim (Option-cases (get_elem? (callbacks phase s) i)) [
          | inl past ↦
              let stop : some s ≡ some t = rw (past, callbacks_from) at e in
              subst (λ u. Does (map (callback_call phase) (drop i (callbacks phase u))) s u)
                (eq_of_some stop) (rw (drop-past (callbacks phase s) i past) (Does-refl s))
          | inr (fn, at_i) ↦
              let both =
                Does-trans (run_callback-Does phase fn s)
                  (callbacks_from-Does fuel phase (suc i) _ t (rw (at_i, callbacks_from) at e)) in
              subst (λ l. Does (map (callback_call phase) l) s t)
                (sym (
                  drop-grown (callbacks phase s) (callbacks phase t) i fn
                    (callbacks-Grows phase both.steady) at_i))
                both
        ]

    -- When the loop ends, for a service that keeps to the API, it has called every callback that is registered by then, once each and in
    -- the order of registration, those that a callback registered during the loop included; a panic
    -- of one does not keep the later ones from running.
    pub run_callbacks-Does :
        (fuel : ℕ) (phase : Phase) (s t : Sys World)
        → run_callbacks d ctx log fuel (some phase) s ≡ some t
        → Does (map (callback_call phase) (callbacks phase t)) s t
    unfolding run_callbacks
    run_callbacks-Does fuel phase s t e = callbacks_from-Does fuel phase 0 s t e

  callbacks-note :
      (phase : Phase) (c : Call) (s : Sys World) → callbacks phase (note c s) ≡ callbacks phase s
  callbacks-note on_listen_ready_phase c s = refl
  callbacks-note before_shutdown_phase c s = refl

  callbacks-report :
      (log : Logger) (phase : Phase) (o : Outcome (Unit {0})) (s : Sys World)
      → (callbacks phase (report log phase o s) ≡ callbacks phase s)
        × ((report log phase o s).world ≡ s.world)
  unfolding report
  callbacks-report log phase (returns _) s = (refl, refl)
  callbacks-report log on_listen_ready_phase (panics v) s = (refl, refl)
  callbacks-report log before_shutdown_phase (panics v) s = (refl, refl)

  length-callbacks :
      (phase : Phase) {cs : List Call} {s t : Sys World}
      → Does cs s t
      → length (callbacks phase s) ≤ length (callbacks phase t)
  length-callbacks phase {s = s} does =
      let g = callbacks-Grows phase does.steady in
      omega (arith, ap length g.grown, length-append (callbacks phase s) g.added)

  -- What bounds the registrations: `credit` reads, off the state that the service keeps, how many
  -- callbacks it may still register, and every callback that registers one pays for it.
  module _ (d : Daemon World) (civil : IsCivil d) (ctx : Context) (log : Logger) (phase : Phase)
      (credit : World → ℕ)
      (spends : (fn : ℕ) (s : Sys World)
        → let t = (d.callback fn ctx s).0 in
          length (callbacks phase t) + credit t.world
          ≤ length (callbacks phase s) + credit s.world) where
    run_callback-spends :
        (fn : ℕ) (s : Sys World)
        → let t = run_callback d ctx log phase fn s in
          length (callbacks phase t) + credit t.world ≤ length (callbacks phase s) + credit s.world
    unfolding run_callback
    run_callback-spends fn s =
        let called = note (callback_call phase fn) s in
        let (same_list, same_world) =
          callbacks-report log phase (d.callback fn ctx called).1 (d.callback fn ctx called).0 in
        omega (
          arith,
          spends fn called,
          ap length same_list,
          ap credit same_world,
          ap length (callbacks-note phase (callback_call phase fn) s),
        )

    callbacks_from_total :
        (fuel i : ℕ) (s : Sys World)
        → length (callbacks phase s) - i + credit s.world < fuel
        → (t : Sys World) × (callbacks_from d ctx log fuel phase i s ≡ some t)
    unfolding callbacks_from
    callbacks_from_total zero i s h = absurd (omega arith)
    callbacks_from_total (suc fuel) i s h = elim (Option-cases (get_elem? (callbacks phase s) i)) [
      | inl past ↦ (s, rw (past, callbacks_from))
      | inr (fn, at_i) ↦
          rw (at_i, callbacks_from)
            (callbacks_from_total fuel (suc i) (run_callback d ctx log phase fn s) (
              omega (
                arith,
                run_callback-spends fn s,
                length-callbacks phase (run_callback-Does d civil ctx log phase fn s),
                get_elem?-lt (callbacks phase s) i fn at_i,
              )))
    ]

    -- The loop of a service that keeps to the API ends when the fuel exceeds the callbacks registered
    -- and those that may still be, where a callback that registers one pays for it.
    pub run_callbacks_total :
        (fuel : ℕ) (s : Sys World)
        → length (callbacks phase s) + credit s.world < fuel
        → (t : Sys World) × (run_callbacks d ctx log fuel (some phase) s ≡ some t)
    unfolding run_callbacks
    run_callbacks_total fuel s h = callbacks_from_total fuel 0 s (omega arith)
