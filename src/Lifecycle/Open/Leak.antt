-- ===== src/Lifecycle/Open/Leak.antt =====
-- A binding whose readiness probe fails is serving, and no shutdown stops it.
use scaffold_go.Base.{
  ℕ, zero, suc, ◌≡◌, refl, ap, ◌∙◌, true, none, some, List, [], ◌∷◌, ◌++◌, get_elem?, set, is_some,
  append_assoc, arith, false, ◌||◌, map, reverse, All, All-append, All-reverse, Option, Bool-cases,
  inl, inr, eq_of_some, none≢some, sym,
}
use scaffold_go.Go.{Error, Logger, LogRecord, Level, text_attr}
use scaffold_go.Context.{Context}
use scaffold_go.Net.{Addr}
use scaffold_go.Binding.{Binding}
use scaffold_go.System.{
  Sys, Daemon, Call, calls, called, logged, note, emit, listen_call, serve_call, shutdown_call,
  clean_call,
}
use scaffold_go.System.Rely.{calls-logged, calls-called}
use scaffold_go.Platform.{Platform, ok}
use scaffold_go.Lifecycle.Probe.{probe_timeout, wait_for_listener}
use scaffold_go.Lifecycle.Open.{
  serve_mode, probe_failed_record, serving, put_binding, with_handler, with_server, listened,
  probed, open_at, open_found, open_binding, after_open, open_each, open_bindings,
}
use scaffold_go.System.Rely.{IsCivil}
use scaffold_go.Lifecycle.Instance.{set_flag}
use scaffold_go.Lifecycle.Callbacks.{run_callbacks}
use scaffold_go.Lifecycle.Shutdown.{teardown, run_shutdown}
use scaffold_go.Lifecycle.Shutdown.Order.{IsCivilServer, IsTornDown, teardown-IsTornDown}
use scaffold_go.Lifecycle.Shutdown.Servers.{has_server, servers, AreAllocated}

is_serving-set :
    (h : List Binding) (r : ℕ) (c : Binding)
    → is_some (get_elem? h r) ≡ true
    → has_server (set h r c) r ≡ is_some c.srv
is_serving-set [] r c a = cc
is_serving-set (x ∷ h) zero c a = refl
is_serving-set (x ∷ h) (suc r) c a = is_serving-set h r c a

is_some-set :
    (h : List Binding) (r i : ℕ) (c : Binding)
    → is_some (get_elem? h i) ≡ true
    → is_some (get_elem? (set h r c) i) ≡ true
is_some-set [] r i c a = a
is_some-set (x ∷ h) zero zero c a = refl
is_some-set (x ∷ h) zero (suc i) c a = a
is_some-set (x ∷ h) (suc r) zero c a = refl
is_some-set (x ∷ h) (suc r) (suc i) c a = is_some-set h r i c a

allocated-set :
    (h : List Binding) (r : ℕ) (c : Binding) (rs : List ℕ)
    → AreAllocated h rs
    → AreAllocated (set h r c) rs
allocated-set h r c [] a = tt
allocated-set h r c (q ∷ rs) a = (is_some-set h r q c a.0, allocated-set h r c rs a.1)

-- The call is not that of the server's Shutdown.
abbrev pub IsNoShutdown : ℕ → Call → Type 0
IsNoShutdown r c = (ctx : Context) → ¬ (c ≡ shutdown_call r ctx)

abbrev pub NoShutdowns : ℕ → List Call → Type 0
NoShutdowns r = All (IsNoShutdown r)

-- The binding is not one of the list.
abbrev pub IsAbsent : ℕ → List ℕ → Type 0
IsAbsent r = All λ q. ¬ (q ≡ r)

NoShutdowns-servers :
    (r : ℕ) (ctx : Context) (h : List Binding) (rs : List ℕ)
    → IsAbsent r rs
    → NoShutdowns r (map (λ q. shutdown_call q ctx) (servers h rs))
NoShutdowns-servers r ctx h [] n = tt
NoShutdowns-servers r ctx h (q ∷ rs) n = elim (Bool-cases (has_server h q)) [
  | inl serves ↦ rw serves ((λ c e. n.0 cc), NoShutdowns-servers r ctx h rs n.1)
  | inr bare ↦ rw bare (NoShutdowns-servers r ctx h rs n.1)
]

NoShutdowns-cleans : (r : ℕ) (fns : List ℕ) → NoShutdowns r (map clean_call fns)
NoShutdowns-cleans r [] = tt
NoShutdowns-cleans r (fn ∷ fns) = ((λ c e. cc), NoShutdowns-cleans r fns)

module _ {World : Type 0} (d : Daemon World) (p : Platform World) (fuel : ℕ) (ctx : Context)
    (log : Logger) (r : ℕ) (rs : List ℕ) (s : Sys World) (b : Binding) (addr : Addr) (w v : World)
    (failed : Error) where
  abbrev composed : Binding
  composed = with_handler d b

  abbrev listening : Sys World
  listening = note (listen_call r) (put_binding r composed s)

  abbrev listening_record : LogRecord
  listening_record = record {
    logger = log;
    level = Level.info;
    text = "binding listening";
    attrs = text_attr "name" composed.name ∷ text_attr "addr" (p.addr_string addr) ∷ [];
  }

  -- The state in which openBindings returns.
  abbrev pub leaked : Sys World
  leaked =
      emit (logged (probe_failed_record log composed failed))
        (record (serving p log r addr composed (record listening { world = w })) { world = v })

  with_server-srv : b.serve_func ≡ none → is_some (with_server addr composed).srv ≡ true
  unfolding with_server with_handler
  with_server-srv http = ground arith

  open_binding-leak :
      get_elem? s.bindings.heap r ≡ some b
      → p.listen composed.listen_addr s.world ≡ (w, ok addr)
      → wait_for_listener p ctx addr fuel probe_timeout w ≡ some (v, some failed)
      → open_binding d p fuel ctx log r s ≡ some (leaked, some failed)
  unfolding open_binding open_found open_at
  open_binding-leak found heard waited =
      ap (open_found d p fuel ctx log r s) found
      ∙ ap (λ x. listened d p fuel ctx log r composed (record listening { world = x.0 }) x.1) heard
      ∙ ap
          (probed d p fuel ctx log composed
            (serving p log r addr composed (record listening { world = w })))
          waited

  leaked-calls :
      calls leaked.trace ≡ calls s.trace ++ listen_call r ∷ serve_call r (serve_mode composed) ∷ []
  leaked-calls =
      calls-logged
        (((s.trace ++ called (listen_call r) ∷ [])
            ++ called (serve_call r (serve_mode composed)) ∷ [])
          ++ logged listening_record ∷ [])
        (probe_failed_record log composed failed)
      ∙ calls-logged
          ((s.trace ++ called (listen_call r) ∷ [])
            ++ called (serve_call r (serve_mode composed)) ∷ [])
          listening_record
      ∙ calls-called (s.trace ++ called (listen_call r) ∷ []) (serve_call r (serve_mode composed))
      ∙ ap (λ l. l ++ serve_call r (serve_mode composed) ∷ [])
          (calls-called s.trace (listen_call r))
      ∙ append_assoc (calls s.trace) (listen_call r ∷ []) _

  -- The loop goes on from where the bindings before have been opened.
  open_each-passed :
      (before rest opened ws : List ℕ) (first u : Sys World)
      → open_each d p fuel ctx log before opened first ≡ some (u, ws, none)
      → open_each d p fuel ctx log (before ++ rest) opened first
        ≡ open_each d p fuel ctx log rest ws u
  unfolding open_each
  open_each-passed [] rest opened ws first u e =
      let same = eq_of_some e in
      ap (λ (x : Sys World × List ℕ × Option Error). open_each d p fuel ctx log rest x.1 x.0) same
  open_each-passed (k ∷ ks) rest opened ws first u e =
      passed (λ t. open_each-passed ks rest (opened ++ k ∷ []) ws t u)
        (open_binding d p fuel ctx log k first) e
    where
      passed :
          ((t : Sys World)
            → open_each d p fuel ctx log ks (opened ++ k ∷ []) t ≡ some (u, ws, none)
            → open_each d p fuel ctx log (ks ++ rest) (opened ++ k ∷ []) t
              ≡ open_each d p fuel ctx log rest ws u)
          → (o : Option (Sys World × Option Error))
          → after_open d p fuel ctx log
              (λ t. open_each d p fuel ctx log ks (opened ++ k ∷ []) t)
              opened
              o
            ≡ some (u, ws, none)
          → after_open d p fuel ctx log
              (λ t. open_each d p fuel ctx log (ks ++ rest) (opened ++ k ∷ []) t)
              opened
              o
            ≡ open_each d p fuel ctx log rest ws u
      passed later none h = absurd (none≢some h)
      passed later (some (t, none)) h = later t h
      passed later (some (t, some x)) h =
          absurd
            (none≢some (sym (ap (λ (y : Sys World × List ℕ × Option Error). y.2) (eq_of_some h))))

  allocated-leaked :
      (before : List ℕ)
      → AreAllocated s.bindings.heap before
      → AreAllocated leaked.bindings.heap before
  allocated-leaked before a =
      allocated-set (set s.bindings.heap r composed) r (with_server addr composed) before
        (allocated-set s.bindings.heap r composed before a)

  module _ (civil : IsCivil d) (civil_server : IsCivilServer p) where
    teardown-NoShutdowns :
        (before : List ℕ) (stop_ctx : Context) (x y : Sys World)
        → IsAbsent r before
        → IsTornDown d p civil civil_server stop_ctx log before x y
        → (new : List Call) × (calls y.trace ≡ calls x.trace ++ new) × NoShutdowns r new
    teardown-NoShutdowns before stop_ctx x y absent torn = (
      _,
      torn.calls_made,
      All-append (IsNoShutdown r) _ _
          (NoShutdowns-servers r stop_ctx x.bindings.heap (reverse before)
            (All-reverse _ before absent))
          ((λ c e. cc), NoShutdowns-cleans r (reverse torn.cleaned)),
    )

    -- When openBindings has opened the bindings `before`, and the listener of the next, an HTTP binding,
    -- has opened, but its readiness probe fails, openBindings returns the bindings before without this one,
    -- although its server has been started and its serve loop runs. The shutdown of the returned bindings,
    -- which Start and Serve make then, without callbacks and with whatever context, ends, and calls
    -- Shutdown of other servers only. The service keeps to the API, and no Clean has been made.
    pub open_bindings_leak :
        (before : List ℕ) (first : Sys World) (stop_ctx : Context) (stop_fuel : ℕ)
        → open_bindings d p fuel ctx log before first ≡ some (s, before, none)
        → get_elem? s.bindings.heap r ≡ some b
        → b.serve_func ≡ none
        → p.listen composed.listen_addr s.world ≡ (w, ok addr)
        → wait_for_listener p ctx addr fuel probe_timeout w ≡ some (v, some failed)
        → IsAbsent r before
        → AreAllocated s.bindings.heap before
        → (s.cleaner.running || s.cleaner.done) ≡ false
        → (open_bindings d p fuel ctx log (before ++ r ∷ rs) first
            ≡ some (leaked, before, some failed))
          × (has_server leaked.bindings.heap r ≡ true)
          × (calls leaked.trace
              ≡ calls s.trace ++ listen_call r ∷ serve_call r (serve_mode composed) ∷ [])
          × ((t : Sys World) × (errs : Option (List Error)) × (new : List Call) × (run_shutdown d p
                  stop_ctx log stop_fuel none before
                  (set_flag leaked)
                ≡ some (t, errs))
              × (calls t.trace ≡ calls leaked.trace ++ new)
              × NoShutdowns r new)
    unfolding open_bindings open_each run_shutdown run_callbacks
    open_bindings_leak before first stop_ctx stop_fuel passed found http heard waited absent
          allocated idle =
        let down = set_flag leaked in
        let torn =
          teardown-IsTornDown d p civil civil_server stop_ctx log before down
            (allocated-leaked before allocated) idle in
        let (new, made, others) = teardown-NoShutdowns before stop_ctx down _ absent torn in
        (
          open_each-passed before (r ∷ rs) [] before first s passed
              ∙ ap
                  (after_open d p fuel ctx log
                    (λ t. open_each d p fuel ctx log rs (before ++ r ∷ []) t) before)
                  (open_binding-leak found heard waited),
          is_serving-set (set s.bindings.heap r composed) r (with_server addr composed)
                (is_some-set s.bindings.heap r r composed (ap is_some found))
              ∙ with_server-srv http,
          leaked-calls,
          (
            (teardown d p stop_ctx log before down).0,
            (teardown d p stop_ctx log before down).1,
            new,
            refl,
            made,
            others,
          ),
        )
