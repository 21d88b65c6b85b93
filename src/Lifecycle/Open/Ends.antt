-- ===== src/Lifecycle/Open/Ends.antt =====
-- openBindings ends, on a clock on which the readiness probes do.
use scaffold_go.Base.{
  ℕ, suc, ◌*◌, ◌<◌, ◌≡◌, refl, ap, ◌∙◌, Option, none, some, List, [], ◌∷◌, ◌++◌, get_elem?,
}
use scaffold_go.Go.{Error, Logger}
use scaffold_go.Context.{Context}
use scaffold_go.Net.{Addr}
use scaffold_go.Binding.{Binding}
use scaffold_go.System.{Sys, Daemon}
use scaffold_go.Platform.{Platform, Result, ok, err}
use scaffold_go.Lifecycle.Probe.{probe_timeout, probe_pause}
use scaffold_go.Lifecycle.Probe.Ends.{IsTimely, wait_for_listener_total}
use scaffold_go.Lifecycle.Shutdown.Servers.{AreAllocated}
use scaffold_go.Lifecycle.Open.{
  serving, probed, listened, open_at, open_found, open_binding, after_open, open_each,
  open_bindings,
}
use scaffold_go.Lifecycle.Open.Order.{IsOpening, open_bindings-IsOpening}

module _ {World : Type 0} (d : Daemon World) (p : Platform World) (rounds : ℕ) (ctx : Context)
    (log : Logger) (timely : (addr : Addr) → IsTimely p ctx addr)
    (enough : probe_timeout < probe_pause * rounds) where
  probed_total :
      (b : Binding) (s : Sys World) (r : World × Option Error)
      → (x : Sys World × Option Error) × (probed d p (suc rounds) ctx log b s (some r) ≡ some x)
  probed_total b s (w, none) = (_, refl)
  probed_total b s (w, some e) = (_, refl)

  listened_total :
      (r : ℕ) (b : Binding) (s : Sys World) (result : Result Addr)
      → (x : Sys World × Option Error) × (listened d p (suc rounds) ctx log r b s result ≡ some x)
  listened_total r b s (err e) = (_, refl)
  listened_total r b s (ok addr) =
      let t = serving p log r addr b s in
      let (y, ends) =
        wait_for_listener_total p ctx addr (timely addr) rounds probe_timeout t.world enough in
      let (x, same) = probed_total b t y in
      (x, ap (probed d p (suc rounds) ctx log b t) ends ∙ same)

  open_found_total :
      (r : ℕ) (s : Sys World) (o : Option Binding)
      → (x : Sys World × Option Error) × (open_found d p (suc rounds) ctx log r s o ≡ some x)
  unfolding open_found open_at
  open_found_total r s none = (_, refl)
  open_found_total r s (some b) = listened_total r _ _ _

  after_open_total :
      (next : Sys World → Option (Sys World × List ℕ × Option Error)) (opened : List ℕ)
      (x : Sys World × Option Error)
      → ((u : Sys World) → (y : Sys World × List ℕ × Option Error) × (next u ≡ some y))
      → (y : Sys World × List ℕ × Option Error) × (after_open d p
            (suc rounds)
            ctx
            log
            next
            opened
            (some x)
          ≡ some y)
  after_open_total next opened (t, none) k = k t
  after_open_total next opened (t, some e) k = (_, refl)

  open_each_total :
      (rs opened : List ℕ) (s : Sys World)
      → (y : Sys World × List ℕ × Option Error) × (open_each d p (suc rounds) ctx log rs opened s
          ≡ some y)
  unfolding open_each open_binding
  open_each_total [] opened s = (_, refl)
  open_each_total (r ∷ rs) opened s =
      let next = λ (u : Sys World). open_each d p (suc rounds) ctx log rs (opened ++ r ∷ []) u in
      let (x, ends) = open_found_total r s (get_elem? s.bindings.heap r) in
      let (y, same) = after_open_total next opened x λ u. open_each_total rs (opened ++ r ∷ []) u in
      (y, ap (after_open d p (suc rounds) ctx log next opened) ends ∙ same)

  -- On a clock that does not run backwards, openBindings of bindings that are in the store ends, with
  -- fuel for one round of a probe more than its pauses fit into its timeout, and as it should: it has
  -- listened on the bindings in order up to the first failure, and returns those before it, open.
  pub open_bindings_ends :
      (order : List ℕ) (s : Sys World)
      → AreAllocated s.bindings.heap order
      → (t : Sys World) × (opened : List ℕ) × (result : Option Error) × (open_bindings d p
            (suc rounds)
            ctx
            log
            order
            s
          ≡ some (t, opened, result))
        × IsOpening d p (suc rounds) ctx log order [] s t opened result
  unfolding open_bindings
  open_bindings_ends order s a =
      let ((t, opened, result), ends) = open_each_total order [] s in
      (
        t,
        opened,
        result,
        ends,
        open_bindings-IsOpening d p (suc rounds) ctx log order s t opened result a ends,
      )
