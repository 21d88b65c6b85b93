-- ===== src/Lifecycle/Probe/Cost.antt =====
-- waitForListener does not add to what the service may still register (port_wait.go).
use scaffold_go.Base.{
  ℕ, zero, suc, ◌+◌, ◌≤◌, inl, inr, Option, none, some, ltb, Option-cases, Bool-cases, arith,
}
use scaffold_go.Go.{Error}
use scaffold_go.Context.{Context}
use scaffold_go.Net.{Addr, DialAddr, translate_dial_addr}
use scaffold_go.Platform.{Platform}
use scaffold_go.Lifecycle.Probe.{after_sleep, after_dial, probe, wait_for_listener}

module _ {World : Type 0} (credit : World → ℕ) where
  -- A result, if there is one, is within the budget.
  abbrev pub IsWithin : ℕ → Option (World × Option Error) → Type 0
  IsWithin budget none = Unit
  IsWithin budget (some (w, _)) = credit w ≤ budget

  module _ (p : Platform World) (ctx : Context) (addr : Addr)
      (dial_free : (a : DialAddr) (w : World) → credit (p.dial a w).0 ≤ credit w)
      (sleep_free : (w : World) → credit (p.sleep ctx w).0 ≤ credit w) where
    after_sleep-IsWithin :
        (budget : ℕ) (next : World → Option (World × Option Error)) (y : World × Option Error)
        → credit y.0 ≤ budget
        → ((v : World) → credit v ≤ budget → IsWithin budget (next v))
        → IsWithin budget (after_sleep p ctx addr next y)
    after_sleep-IsWithin budget next (v, some e) h k = h
    after_sleep-IsWithin budget next (v, none) h k = k v h

    after_dial-IsWithin :
        (budget : ℕ) (next : World → Option (World × Option Error)) (deadline : ℕ)
        (x : World × Option Error)
        → credit x.0 ≤ budget
        → ((v : World) → credit v ≤ budget → IsWithin budget (next v))
        → IsWithin budget (after_dial p ctx addr next deadline x)
    after_dial-IsWithin budget next deadline (v, none) h k = h
    after_dial-IsWithin budget next deadline (v, some e) h k =
        elim (Bool-cases (ltb deadline (p.now v))) [
          | inl late ↦ rw late h
          | inr early ↦
              rw early
                (after_sleep-IsWithin budget next (p.sleep ctx v) (omega (arith, sleep_free v)) k)
        ]

    probe-IsWithin :
        (budget fuel deadline : ℕ) (w : World)
        → credit w ≤ budget
        → IsWithin budget (probe p ctx addr fuel deadline w)
    unfolding probe
    probe-IsWithin budget zero deadline w h = tt
    probe-IsWithin budget (suc fuel) deadline w h = elim (Option-cases (p.ctx_err ctx w)) [
      | inr (e, ended) ↦ rw (ended, probe) h
      | inl alive ↦
          rw (alive, probe)
            (after_dial-IsWithin budget (λ v. probe p ctx addr fuel deadline v) deadline
              (p.dial (translate_dial_addr addr) w)
              (omega (arith, dial_free (translate_dial_addr addr) w))
              (λ v within. probe-IsWithin budget fuel deadline v within))
    ]

    pub wait_for_listener-IsWithin :
        (fuel timeout : ℕ) (w : World)
        → IsWithin (credit w) (wait_for_listener p ctx addr fuel timeout w)
    unfolding wait_for_listener
    wait_for_listener-IsWithin fuel timeout w =
        probe-IsWithin (credit w) fuel (p.now w + timeout) w (omega arith)
