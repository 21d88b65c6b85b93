-- ===== src/Lifecycle/Shutdown/Order.antt =====
-- The order of the shutdown sequence.
use scaffold_go.Base.{
  ℕ, String, ◌≡◌, refl, ap, ap₂, subst, ◌∙◌, true, false, ◌||◌, Option, none, some, List, [], ◌∷◌,
  ◌++◌, map, reverse, get_elem?, is_some, eq_of_some, none≢some, append_assoc, if◌then◌else◌,
  All-reverse, Option-cases, Bool-cases, inl, inr,
}
use scaffold_go.Go.{Outcome, returns, panics, Error, Logger, Attr, text_attr}
use scaffold_go.Context.{Context}
use scaffold_go.Binding.{Binding, Server}
use scaffold_go.System.{
  Sys, Daemon, Phase, Call, on_stop_call, shutdown_call, clean_call, callback_call, calls,
}
use scaffold_go.System.Rely.{
  Grows, IsCivil, Rely, Does, Does-refl, Does-trans, Rely-Does, logged-Does, note-Does,
}
use scaffold_go.Platform.{Platform}
use scaffold_go.Cleaner.{clean}
use scaffold_go.Cleaner.Order.{clean_first}
use scaffold_go.Lifecycle.Callbacks.{callbacks, run_callbacks}
use scaffold_go.Lifecycle.Callbacks.Order.{run_callbacks-Does}
use scaffold_go.Lifecycle.Shutdown.Servers.{
  has_server, servers, AreAllocated, allocated-kept, servers-kept,
}
use scaffold_go.Lifecycle.Shutdown.{
  recovered, stop_server, shutdown_binding, shutdown_each, call_on_stop, report_clean, teardown,
  run_shutdown,
}

-- The platform's servers keep to the same rules as the service.
abbrev pub IsCivilServer : {World : Type 0} → Platform World → Type 0
IsCivilServer {World} p =
    (r : ℕ) (ctx : Context) (s : Sys World) → Rely s (p.server_shutdown r ctx s).0

-- The calls of the callbacks of a phase that are registered by now; none for the nil pointer.
abbrev pub callback_calls : {World : Type 0} → Option Phase → Sys World → List Call
callback_calls none s = []
callback_calls (some phase) s = map (callback_call phase) (callbacks phase s)

module _ {World : Type 0} where
  recovered-Does :
      (log : Logger) (panicked failed : String) (attrs : List Attr) (s : Sys World)
      (o : Outcome (Option Error))
      → Does [] s (recovered log panicked failed attrs (s, o)).0
  unfolding recovered
  recovered-Does log panicked failed attrs s (returns none) = Does-refl s
  recovered-Does log panicked failed attrs s (returns (some e)) = logged-Does _ s
  recovered-Does log panicked failed attrs s (panics v) = logged-Does _ s

  module _ (p : Platform World) (civil : IsCivilServer p) (ctx : Context) (log : Logger) where
    abbrev shutdowns : List ℕ → List Call
    shutdowns = map λ r. shutdown_call r ctx

    stop_server-Does :
        (r : ℕ) (b : Binding) (srv : Option Server) (s : Sys World)
        → Does
            (shutdowns (if is_some srv then r ∷ [] else []))
            s
            (stop_server p ctx log r b srv s).0
    unfolding stop_server
    stop_server-Does r b none s = Does-refl s
    stop_server-Does r b (some srv) s = Does-trans (note-Does _ s) (
        Does-trans (Rely-Does (civil r ctx _)) (
          recovered-Does log "binding shutdown panicked" "binding shutdown returned error"
            (text_attr "binding" b.name ∷ []) _ _))

    shutdown_binding-Does :
        (r : ℕ) (s : Sys World)
        → Does (shutdowns (servers s.bindings.heap (r ∷ []))) s (shutdown_binding p ctx log r s).0
    unfolding shutdown_binding
    shutdown_binding-Does r s = elim (Option-cases (get_elem? s.bindings.heap r)) [
      | inl e ↦ rw (e, shutdown_binding) (Does-refl s)
      | inr (b, e) ↦ rw (e, shutdown_binding) (stop_server-Does r b b.srv s)
    ]

    shutdowns-cons :
        (h : List Binding) (r : ℕ) (rs : List ℕ)
        → shutdowns (servers h (r ∷ [])) ++ shutdowns (servers h rs)
          ≡ shutdowns (servers h (r ∷ rs))
    shutdowns-cons h r rs = elim (Bool-cases (has_server h r)) [ inl e ↦ rw e | inr e ↦ rw e ]

    shutdown_each-Does :
        (rs : List ℕ) (s : Sys World)
        → AreAllocated s.bindings.heap rs
        → Does (shutdowns (servers s.bindings.heap rs)) s (shutdown_each p ctx log rs s).0
    unfolding shutdown_each
    shutdown_each-Does [] s a = Does-refl s
    shutdown_each-Does (r ∷ rs) s a =
        let first = shutdown_binding-Does r s in
        let kept = first.steady.heap_kept in
        let t = (shutdown_binding p ctx log r s).0 in
        let rest = shutdown_each-Does rs t (allocated-kept _ _ kept rs a.1) in
        subst (λ cs. Does cs s (shutdown_each p ctx log (r ∷ rs) s).0)
          (ap (λ l. shutdowns (servers s.bindings.heap (r ∷ [])) ++ shutdowns l)
              (servers-kept _ _ kept rs a.1)
            ∙ shutdowns-cons s.bindings.heap r rs)
          (Does-trans first rest)

  module _ (d : Daemon World) (p : Platform World) (civil : IsCivil d)
      (civil_server : IsCivilServer p) (ctx : Context) (log : Logger) where
    call_on_stop-Does :
        (s : Sys World) → Does (on_stop_call ctx ∷ []) s (call_on_stop d ctx log s).0
    unfolding call_on_stop
    call_on_stop-Does s = Does-trans (note-Does _ s) (
        Does-trans (Rely-Does (civil.on_stop_rely ctx _))
          (recovered-Does log "OnStop panicked" "OnStop returned error" [] _ _))

    -- What a shutdown from `s` to `t` has done, after the callbacks.
    pub record IsTornDown (order : List ℕ) (s t : Sys World) : Type 0 where
      pub cleaned : List ℕ
      pub cleaned_grown : Grows s.cleaner.stack cleaned
      pub calls_made :
          calls t.trace
          ≡ calls s.trace
            ++ (map (λ r. shutdown_call r ctx) (servers s.bindings.heap (reverse order))
                ++ on_stop_call ctx ∷ map clean_call (reverse cleaned))
      pub cleaner_done : t.cleaner.done ≡ true
      pub cleaner_empty : t.cleaner.stack ≡ []

    report_clean-none : (x : Sys World × Option Error) → x.1 ≡ none → (report_clean log x).0 ≡ x.0
    unfolding report_clean
    report_clean-none (s, none) e = refl
    report_clean-none (s, some err) e = cc

    -- From the state in which OnStop has returned.
    clean-IsTornDown :
        (order : List ℕ) (s u : Sys World)
        → Does
            (map (λ r. shutdown_call r ctx) (servers s.bindings.heap (reverse order))
              ++ on_stop_call ctx ∷ [])
            s
            u
        → (s.cleaner.running || s.cleaner.done) ≡ false
        → IsTornDown order s (report_clean log (clean d ctx u)).0
    clean-IsTornDown order s u does idle =
        let still_idle = ap₂ ◌||◌ does.steady.running_kept does.steady.done_kept ∙ idle in
        let (no_error, ran, _, done, empty) = clean_first d civil ctx u still_idle in
        let end = report_clean-none (clean d ctx u) no_error in
        record {
          cleaned = u.cleaner.stack;
          cleaned_grown = does.steady.stack_grows;
          calls_made =
              ap (λ v. calls v.trace) end
              ∙ ran
              ∙ ap (λ l. l ++ map clean_call (reverse u.cleaner.stack)) does.calls_made
              ∙ append_assoc (calls s.trace) _ _
              ∙ ap (λ l. calls s.trace ++ l) (append_assoc _ (on_stop_call ctx ∷ []) _);
          cleaner_done = ap (λ v. v.cleaner.done) end ∙ done;
          cleaner_empty = ap (λ v. v.cleaner.stack) end ∙ empty;
        }

    -- After the callbacks: the HTTP servers of the given bindings are shut down in reverse order,
    -- then OnStop runs, then every clean-up function registered by then, last first. Each is called
    -- exactly once, whatever the calls before it returned and whether they panicked.
    pub teardown-IsTornDown :
        (order : List ℕ) (s : Sys World)
        → AreAllocated s.bindings.heap order
        → (s.cleaner.running || s.cleaner.done) ≡ false
        → IsTornDown order s (teardown d p ctx log order s).0
    unfolding teardown
    teardown-IsTornDown order s a idle =
        let stopped =
          shutdown_each-Does p civil_server ctx log (reverse order) s (All-reverse _ order a) in
        clean-IsTornDown order s _ (Does-trans stopped (call_on_stop-Does _)) idle

    all_callbacks-Does :
        (fuel : ℕ) (phase : Option Phase) (s u : Sys World)
        → run_callbacks d ctx log fuel phase s ≡ some u
        → Does (callback_calls phase u) s u
    unfolding run_callbacks
    all_callbacks-Does fuel none s u e = subst (Does [] s) (eq_of_some e) (Does-refl s)
    all_callbacks-Does fuel (some phase) s u e = run_callbacks-Does d civil ctx log fuel phase s u e

    -- The parts of a shutdown: the callbacks up to the state `called_back`, and the rest.
    pub record IsShutDown (phase : Option Phase) (order : List ℕ) (s t : Sys World) : Type 0 where
      pub called_back : Sys World
      pub callbacks_run : Does (callback_calls phase called_back) s called_back
      pub torn_down : IsTornDown order called_back t
      pub servers_same :
          servers called_back.bindings.heap (reverse order)
          ≡ servers s.bindings.heap (reverse order)

    -- A shutdown that ends, of bindings that are in the store, starting on an idle cleaner, where the
    -- service keeps to the API, makes exactly these calls, in this order, whatever each returns and
    -- whether it panics: every registered callback, if it was given the callbacks, in order of
    -- registration; srv.Shutdown of each binding that has an HTTP server, in reverse order; OnStop;
    -- the clean-up functions, last registered first. The cleaner ends done and empty.
    pub run_shutdown-IsShutDown :
        (fuel : ℕ) (phase : Option Phase) (order : List ℕ) (s t : Sys World)
        (errs : Option (List Error))
        → AreAllocated s.bindings.heap order
        → (s.cleaner.running || s.cleaner.done) ≡ false
        → run_shutdown d p ctx log fuel phase order s ≡ some (t, errs)
        → IsShutDown phase order s t
    unfolding run_shutdown
    run_shutdown-IsShutDown fuel phase order s t errs a idle e =
        elim (Option-cases (run_callbacks d ctx log fuel phase s)) [
          | inl endless ↦ absurd (none≢some (rw (endless, run_shutdown) at e))
          | inr (u, ran) ↦
              let does = all_callbacks-Does fuel phase s u ran in
              let kept = does.steady.heap_kept in
              let same_end : teardown d p ctx log order u ≡ (t, errs) =
                eq_of_some (rw (ran, run_shutdown) at e) in
              record {
                called_back = u;
                callbacks_run = does;
                torn_down =
                    subst (λ x. IsTornDown order u x.0) same_end
                      (teardown-IsTornDown order u (allocated-kept _ _ kept order a)
                        (ap₂ ◌||◌ does.steady.running_kept does.steady.done_kept ∙ idle));
                servers_same = servers-kept _ _ kept (reverse order) (All-reverse _ order a);
              }
        ]
