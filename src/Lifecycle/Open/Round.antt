-- ===== src/Lifecycle/Open/Round.antt =====
-- One round of the loop of openBindings.
use scaffold_go.Base.{
  ℕ, ◌≡◌, refl, sym, ap, subst, ◌∙◌, true, Option, none, some, [], ◌∷◌, ◌++◌, get_elem?, set,
  is_some, append-nil, eq_of_some, none≢some, Option-cases, inl, inr, arith,
}
use mathlib.Core.Bool.{false≢true}
use scaffold_go.Go.{Error, Logger, LogRecord}
use scaffold_go.Context.{Context}
use scaffold_go.Net.{Addr}
use scaffold_go.Binding.{Binding}
use scaffold_go.Binding.Dispatch.{build_handler, new_http_server}
use scaffold_go.System.{Sys, Daemon, logged, called, listen_call, serve_call, note, emit}
use scaffold_go.Platform.{Platform, Result, ok, err}
use scaffold_go.Lifecycle.Probe.{probe_timeout, wait_for_listener}
use scaffold_go.Lifecycle.Open.{
  probe_failed_record, listen_failed_record, serve_mode, put_binding, serving, with_handler,
  with_server, probed, listened, open_at, open_found, open_binding,
}
use scaffold_go.Lifecycle.Open.State.{
  listens, listens-logged, listens-called, IsOpen, IsOpenAt, replaced-IsOpenAt, recomposed-IsOpenAt,
  set-set, wait-cases,
}

module _ {World : Type 0} (d : Daemon World) (p : Platform World) (fuel : ℕ) (ctx : Context)
    (log : Logger) where
  -- One round has tried to listen on the binding; if it succeeded, only that binding has changed,
  -- and it is open.
  pub record IsRound (r : ℕ) (s t : Sys World) (result : Option Error) : Type 0 where
    pub tried : listens t.trace ≡ listens s.trace ++ r ∷ []
    pub kept :
        (i : ℕ)
        → IsOpenAt d.error_handler s.bindings.heap i
        → IsOpenAt d.error_handler t.bindings.heap i
    pub opened :
        result ≡ none
        → (c : Binding) × IsOpen d.error_handler c × (t.bindings.heap ≡ set s.bindings.heap r c)

  IsRound-eq :
      (r : ℕ) (s t u : Sys World) (end result : Option Error)
      → ◌≡◌ {A = Option (Sys World × Option Error)} (some (u, end)) (some (t, result))
      → IsRound r s u end
      → IsRound r s t result
  IsRound-eq r s t u end result e round = subst (λ x. IsRound r s x.0 x.1) (eq_of_some e) round

  -- A failure is logged, and the bindings that were open still are.
  IsRound-failed :
      (r : ℕ) (s u : Sys World) (log_entry : LogRecord) (failed : Error)
      → listens u.trace ≡ listens s.trace ++ r ∷ []
      → ((i : ℕ)
          → IsOpenAt d.error_handler s.bindings.heap i
          → IsOpenAt d.error_handler u.bindings.heap i)
      → IsRound r s (emit (logged log_entry) u) (some failed)
  IsRound-failed r s u log_entry failed tried kept = record {
    tried = listens-logged u.trace log_entry ∙ tried;
    kept = kept;
    opened = λ n. cc;
  }

  probed-IsRound :
      (r : ℕ) (s u t : Sys World) (b c : Binding) (result : Option Error)
      (waited : Option (World × Option Error))
      → listens u.trace ≡ listens s.trace ++ r ∷ []
      → ((i : ℕ)
          → IsOpenAt d.error_handler s.bindings.heap i
          → IsOpenAt d.error_handler u.bindings.heap i)
      → IsOpen d.error_handler c
      → u.bindings.heap ≡ set s.bindings.heap r c
      → probed d p fuel ctx log b u waited ≡ some (t, result)
      → IsRound r s t result
  probed-IsRound r s u t b c result waited tried kept open_c at_heap e = elim (wait-cases waited) [
    | inl endless ↦ absurd (none≢some (subst Ends endless e))
    | inr (inl (w, connected)) ↦
        IsRound-eq r s t (record u { world = w }) none result (subst Ends connected e)
          (record { tried = tried; kept = kept; opened = λ _. (c, open_c, at_heap) })
    | inr (inr (w, failed, ended)) ↦
        let entry = probe_failed_record log b failed in
        IsRound-eq r s t (emit (logged entry) (record u { world = w })) (some failed) result
          (subst Ends ended e) (IsRound-failed r s (record u { world = w }) entry failed tried kept)
  ]
    where
      Ends : Option (World × Option Error) → Type 0
      Ends x = probed d p fuel ctx log b u x ≡ some (t, result)

  with_handler-serve_func : (b : Binding) → (with_handler d b).serve_func ≡ b.serve_func
  unfolding with_handler
  with_handler-serve_func b = ground arith

  with_handler-IsOpen :
      (b : Binding) → IsOpen d.error_handler b → IsOpen d.error_handler (with_handler d b)
  unfolding with_handler build_handler new_http_server
  with_handler-IsOpen b o = record {
    has_addr = ground (arith, o.has_addr);
    composed = λ n. ground arith;
    served = λ n.
        let http = sym (with_handler-serve_func b) ∙ n in
        ground (arith, o.composed http, o.served http);
  }

  with_server-IsOpen :
      (addr : Addr) (b : Binding) → IsOpen d.error_handler (with_server addr (with_handler d b))
  unfolding with_server with_handler build_handler new_http_server
  with_server-IsOpen addr b = record {
    has_addr = ground arith;
    composed = λ n. ground arith;
    served = λ n. ground arith;
  }

  listened-IsRound :
      (r : ℕ) (s u t : Sys World) (b : Binding) (result : Option Error) (answer : Result Addr)
      → get_elem? s.bindings.heap r ≡ some b
      → listens u.trace ≡ listens s.trace ++ r ∷ []
      → u.bindings.heap ≡ set s.bindings.heap r (with_handler d b)
      → listened d p fuel ctx log r (with_handler d b) u answer ≡ some (t, result)
      → IsRound r s t result
  listened-IsRound r s u t b result (err failed) found tried at_heap e =
      let entry = listen_failed_record log (with_handler d b) failed in
      IsRound-eq r s t (emit (logged entry) u) (some failed) result e (
        IsRound-failed r s u entry failed tried (
          recomposed-IsOpenAt d.error_handler s.bindings.heap u.bindings.heap r b (with_handler d b)
            at_heap found (with_handler-IsOpen b)))
  listened-IsRound r s u t b result (ok addr) found tried at_heap e =
      let serving_u = serving p log r addr (with_handler d b) u in
      let at_server =
        ap (λ h. set h r (with_server addr (with_handler d b))) at_heap
        ∙ set-set s.bindings.heap r (with_handler d b) (with_server addr (with_handler d b)) in
      probed-IsRound r s serving_u t (with_handler d b) (with_server addr (with_handler d b)) result
        (wait_for_listener p ctx addr fuel probe_timeout serving_u.world)
        (listens-logged (u.trace ++ called (serve_call r (serve_mode (with_handler d b))) ∷ []) _
          ∙ listens-called u.trace _
          ∙ append-nil (listens u.trace)
          ∙ tried)
        (replaced-IsOpenAt d.error_handler s.bindings.heap serving_u.bindings.heap r
          (with_server addr (with_handler d b)) at_server (with_server-IsOpen addr b))
        (with_server-IsOpen addr b) at_server e

  open_at-IsRound :
      (r : ℕ) (s t : Sys World) (b : Binding) (result : Option Error)
      → get_elem? s.bindings.heap r ≡ some b
      → open_at d p fuel ctx log r (with_handler d b) s ≡ some (t, result)
      → IsRound r s t result
  unfolding open_at
  open_at-IsRound r s t b result found e =
      let u = note (listen_call r) (put_binding r (with_handler d b) s) in
      let answer = p.listen (with_handler d b).listen_addr u.world in
      listened-IsRound r s (record u { world = answer.0 }) t b result answer.1 found
        (listens-called s.trace (listen_call r)) refl e

  pub open_binding-IsRound :
      (r : ℕ) (s t : Sys World) (result : Option Error)
      → is_some (get_elem? s.bindings.heap r) ≡ true
      → open_binding d p fuel ctx log r s ≡ some (t, result)
      → IsRound r s t result
  unfolding open_binding open_found
  open_binding-IsRound r s t result allocated e =
      elim (Option-cases (get_elem? s.bindings.heap r)) [
        | inl missing ↦ absurd (false≢true (subst (λ o. is_some o ≡ true) missing allocated))
        | inr (b, found) ↦
            open_at-IsRound r s t b result found
              (subst (λ o. open_found d p fuel ctx log r s o ≡ some (t, result)) found e)
      ]
