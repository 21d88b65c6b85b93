-- ===== src/Lifecycle/Instance/Once.antt =====
-- Instance.Stop: the first call shuts down, later calls do nothing.
use scaffold_go.Base.{
  ℕ, ◌≡◌, sym, ap, subst, ◌∙◌, true, Bool-cases, Option, none, some, List, inl, inr, eq_of_some,
  if◌then◌else◌,
}
use scaffold_go.Go.{Error}
use scaffold_go.Context.{Context}
use scaffold_go.System.{Sys, Daemon}
use scaffold_go.Platform.{Platform}
use scaffold_go.Lifecycle.Instance.{Instance, stop_once, stopped_with, stop}

module _ {World : Type 0} (d : Daemon World) (p : Platform World) where
  stopped_with-stopped :
      (i i' : Instance) (end : Option (Sys World × Option (List Error))) (t : Sys World)
      (errs : Option (List Error))
      → stopped_with i end ≡ some (i', t, errs)
      → i'.stopped ≡ true
  stopped_with-stopped i i' none t errs e = cc
  stopped_with-stopped i i' (some (u, r)) t errs e = ap (λ x. x.0.stopped) (sym (eq_of_some e))

  stop-stopped :
      (fuel : ℕ) (ctx : Context) (i i' : Instance) (s t : Sys World) (errs : Option (List Error))
      → stop d p fuel ctx i s ≡ some (i', t, errs)
      → i'.stopped ≡ true
  unfolding stop
  stop-stopped fuel ctx i i' s t errs e = elim (Bool-cases i.stopped) [
    | inl again ↦
        let same : some (i, s, none) ≡ some (i', t, errs) =
          subst
            (λ b.
              (if b then some (i, s, none) else stop_once d p fuel ctx i s) ≡ some (i', t, errs))
            again e in
        ap (λ x. x.0.stopped) (sym (eq_of_some same)) ∙ again
    | inr first ↦ stopped_with-stopped i i' _ t errs (
        subst
          (λ b. (if b then some (i, s, none) else stop_once d p fuel ctx i s) ≡ some (i', t, errs))
          first e)
  ]

  -- After a Stop that ended, every later Stop returns nil and changes nothing, with any context and
  -- in whatever state it is made.
  pub stop_once_only :
      (fuel fuel' : ℕ) (ctx ctx' : Context) (i i' : Instance) (s t u : Sys World)
      (errs : Option (List Error))
      → stop d p fuel ctx i s ≡ some (i', t, errs)
      → stop d p fuel' ctx' i' u ≡ some (i', u, none)
  unfolding stop
  stop_once_only fuel fuel' ctx ctx' i i' s t u errs e =
      ap (λ b. if b then some (i', u, none) else stop_once d p fuel' ctx' i' u)
        (stop-stopped fuel ctx i i' s t errs e)
