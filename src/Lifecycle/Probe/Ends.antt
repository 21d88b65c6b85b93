-- ===== src/Lifecycle/Probe/Ends.antt =====
-- waitForListener ends, and its result says why (port_wait.go).
use scaffold_go.Base.{
  ℕ, zero, suc, ◌+◌, ◌*◌, ◌≤◌, ◌<◌, ◌≡◌, refl, subst, ◌⊎◌, inl, inr, false, Option, none, some, ltb,
  ltb→lt, eq_of_some, Option-cases, Bool-cases, arith,
}
use scaffold_go.Go.{Error}
use scaffold_go.Context.{Context}
use scaffold_go.Net.{Addr, translate_dial_addr}
use scaffold_go.Platform.{Platform}
use scaffold_go.Lifecycle.Probe.{
  probe_pause, timed_out, after_sleep, after_dial, probe, wait_for_listener,
}

-- The clock does not run backwards over a dial, and a pause that the context does not cut short
-- lasts as long as it was asked to.
pub record IsTimely {World : Type 0} (p : Platform World) (ctx : Context) (addr : Addr)
    : Type 0 where
  pub dial_forward : (w : World) → p.now w ≤ p.now (p.dial (translate_dial_addr addr) w).0
  pub sleep_lasts : (v u : World) → p.sleep ctx v ≡ (u, none) → p.now v + probe_pause ≤ p.now u

module _ {World : Type 0} (p : Platform World) (ctx : Context) (addr : Addr)
    (timely : IsTimely p ctx addr) where
  after_sleep_total :
      (next : World → Option (World × Option Error)) (y : World × Option Error)
      → ((u : World) → y ≡ (u, none) → (r : World × Option Error) × (next u ≡ some r))
      → (r : World × Option Error) × (after_sleep p ctx addr next y ≡ some r)
  after_sleep_total next (v, some e) k = ((v, some e), refl)
  after_sleep_total next (v, none) k = k v refl

  after_dial_total :
      (next : World → Option (World × Option Error)) (deadline start : ℕ) (x : World × Option Error)
      → start ≤ p.now x.0
      → ((v u : World)
          → start ≤ p.now v
          → ltb deadline (p.now v) ≡ false
          → p.sleep ctx v ≡ (u, none)
          → (r : World × Option Error) × (next u ≡ some r))
      → (r : World × Option Error) × (after_dial p ctx addr next deadline x ≡ some r)
  after_dial_total next deadline start (v, none) h k = ((v, none), refl)
  after_dial_total next deadline start (v, some e) h k =
      elim (Bool-cases (ltb deadline (p.now v))) [
        | inl late ↦ rw late ((v, some (timed_out p ctx addr)), refl)
        | inr early ↦
            rw early (after_sleep_total next (p.sleep ctx v) λ u slept. k v u h early slept)
      ]

  probe_step_total :
      (fuel deadline : ℕ) (w : World)
      → ((v u : World)
          → p.now w ≤ p.now v
          → ltb deadline (p.now v) ≡ false
          → p.sleep ctx v ≡ (u, none)
          → (r : World × Option Error) × (probe p ctx addr fuel deadline u ≡ some r))
      → (r : World × Option Error) × (probe p ctx addr (suc fuel) deadline w ≡ some r)
  unfolding probe
  probe_step_total fuel deadline w k = elim (Option-cases (p.ctx_err ctx w)) [
    | inr (e, ended) ↦ rw (ended, probe) ((w, some e), refl)
    | inl alive ↦
        rw (alive, probe)
          (after_dial_total (λ v. probe p ctx addr fuel deadline v) deadline (p.now w)
            (p.dial (translate_dial_addr addr) w) (timely.dial_forward w) k)
  ]

  probe_total :
      (fuel deadline : ℕ) (w : World)
      → deadline < p.now w + probe_pause * fuel
      → (r : World × Option Error) × (probe p ctx addr (suc fuel) deadline w ≡ some r)
  probe_total zero deadline w h =
      probe_step_total zero deadline w λ v u after early slept. absurd (ground arith)
  probe_total (suc fuel) deadline w h =
      probe_step_total (suc fuel) deadline w λ v u after early slept.
        probe_total fuel deadline u (omega (arith, timely.sleep_lasts v u slept))

  -- With a clock that does not run backwards and pauses that last, waitForListener ends: one round
  -- more than the pauses that fit into the timeout is fuel enough.
  pub wait_for_listener_total :
      (rounds timeout : ℕ) (w : World)
      → timeout < probe_pause * rounds
      → (r : World × Option Error) × (wait_for_listener p ctx addr (suc rounds) timeout w ≡ some r)
  unfolding wait_for_listener
  wait_for_listener_total rounds timeout w h =
      probe_total rounds (p.now w + timeout) w (omega arith)

module _ {World : Type 0} (p : Platform World) (ctx : Context) (addr : Addr) where
  -- Why a wait that ended in `v` ended: the last dial connected; or the deadline had passed when a
  -- dial failed; or the context had ended, before a dial or during a pause.
  pub IsExplained : ℕ → World × Option Error → Type 0
  IsExplained deadline (v, result) =
      ((result ≡ none) × ((w : World) × (p.dial (translate_dial_addr addr) w ≡ (v, none))))
      ⊎ (((result ≡ some (timed_out p ctx addr)) × (deadline < p.now v))
          ⊎ ((e : Error) × (result ≡ some e)
              × ((p.ctx_err ctx v ≡ some e) ⊎ ((w : World) × (p.sleep ctx w ≡ (v, some e))))))

  after_sleep-IsExplained :
      (next : World → Option (World × Option Error)) (deadline : ℕ) (v : World)
      (y r : World × Option Error)
      → p.sleep ctx v ≡ y
      → ((u : World) → next u ≡ some r → IsExplained deadline r)
      → after_sleep p ctx addr next y ≡ some r
      → IsExplained deadline r
  unfolding IsExplained
  after_sleep-IsExplained next deadline v (u, some err) r slept k e =
      subst (IsExplained deadline) (eq_of_some e) (inr (inr (err, refl, inr (v, slept))))
  after_sleep-IsExplained next deadline v (u, none) r slept k e = k u e

  after_dial-IsExplained :
      (next : World → Option (World × Option Error)) (deadline : ℕ) (w : World)
      (x r : World × Option Error)
      → p.dial (translate_dial_addr addr) w ≡ x
      → ((u : World) → next u ≡ some r → IsExplained deadline r)
      → after_dial p ctx addr next deadline x ≡ some r
      → IsExplained deadline r
  unfolding IsExplained
  after_dial-IsExplained next deadline w (v, none) r dialled k e =
      subst (IsExplained deadline) (eq_of_some e) (inl (refl, (w, dialled)))
  after_dial-IsExplained next deadline w (v, some err) r dialled k e =
      elim (Bool-cases (ltb deadline (p.now v))) [
        | inl late ↦
            subst (IsExplained deadline) (eq_of_some (rw late at e))
              (inr (inl (refl, ltb→lt deadline (p.now v) late)))
        | inr early ↦
            after_sleep-IsExplained next deadline v (p.sleep ctx v) r refl k (rw early at e)
      ]

  -- Whatever the fuel, a wait that ends returns nil only after a dial connected, the timeout's error
  -- only when the clock has passed the deadline, and otherwise the error of a context that has ended.
  pub probe-IsExplained :
      (fuel deadline : ℕ) (w : World) (r : World × Option Error)
      → probe p ctx addr fuel deadline w ≡ some r
      → IsExplained deadline r
  unfolding probe IsExplained
  probe-IsExplained zero deadline w r e = cc
  probe-IsExplained (suc fuel) deadline w r e = elim (Option-cases (p.ctx_err ctx w)) [
    | inr (err, ended) ↦
        subst (IsExplained deadline) (eq_of_some (rw (ended, probe) at e))
          (inr (inr (err, refl, inl ended)))
    | inl alive ↦
        after_dial-IsExplained (λ v. probe p ctx addr fuel deadline v) deadline w _ r refl
          (λ u more. probe-IsExplained fuel deadline u r more) (rw (alive, probe) at e)
  ]
