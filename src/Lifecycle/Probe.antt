-- ===== src/Lifecycle/Probe.antt =====
-- waitForListener of port_wait.go.
pub mod Ends
pub mod Cost
use scaffold_go.Base.{ℕ, zero, suc, ◌+◌, Option, none, some, [], ◌∷◌, ltb, if◌then◌else◌}
use scaffold_go.Go.{Error, message, sprintf, str}
use scaffold_go.Context.{Context}
use scaffold_go.Net.{Addr, translate_dial_addr}
use scaffold_go.Platform.{Platform}

-- `5*time.Second`, and the pause between two attempts, in nanoseconds.
abbrev pub probe_timeout : ℕ
probe_timeout = 5000000000

abbrev pub probe_pause : ℕ
probe_pause = 10000000

module _ {World : Type 0} (p : Platform World) (ctx : Context) (addr : Addr) where
  abbrev timed_out : Error
  timed_out =
      message
        (sprintf "scaffold: timed out waiting for listener at %s" (str (p.addr_string addr) ∷ []))

  -- What follows the pause: the context's error, or the next round.
  abbrev after_sleep :
      (World → Option (World × Option Error)) → World × Option Error → Option (World × Option Error)
  after_sleep next (v, some e) = some (v, some e)
  after_sleep next (v, none) = next v

  abbrev after_dial :
      (World → Option (World × Option Error))
      → ℕ
      → World × Option Error
      → Option (World × Option Error)
  after_dial next deadline (v, none) = some (v, none)
  after_dial next deadline (v, some e) =
      if ltb deadline (p.now v) then some (v, some timed_out) else after_sleep next (p.sleep ctx v)

  -- The rounds of the loop. `none` means that the fuel ran out.
  unfoldable pub probe : ℕ → ℕ → World → Option (World × Option Error)
  probe zero deadline w = none
  probe (suc fuel) deadline w =
      let next = λ (v : World). probe fuel deadline v in
      elim (p.ctx_err ctx w) [
        | some e ↦ some (w, some e)
        | none ↦ after_dial next deadline (p.dial (translate_dial_addr addr) w)
      ]

  unfoldable pub wait_for_listener : ℕ → ℕ → World → Option (World × Option Error)
  unfolding probe
  wait_for_listener fuel timeout w = probe fuel (p.now w + timeout) w
