-- ===== src/Lifecycle/Open/Frame.antt =====
-- What openBindings leaves as it is.
use scaffold_go.Base.{
  ℕ, String, ◌≤◌, ◌≡◌, refl, sym, ap, ◌∙◌, Bool, true, false, Option, none, some, List, [], ◌∷◌,
  ◌++◌, get_elem?, is_some, append-nil, append_assoc, All, All-append, arith,
}
use scaffold_go.Go.{Error, Logger, LogRecord}
use scaffold_go.Context.{Context}
use scaffold_go.Net.{Addr, DialAddr}
use scaffold_go.Binding.{Binding}
use scaffold_go.System.{
  Sys, Daemon, logged, Call, on_start_call, on_stop_call, callback_call, clean_call, listen_call,
  serve_call, shutdown_call, calls, note, emit,
}
use scaffold_go.System.Rely.{calls-logged, calls-called}
use scaffold_go.Platform.{Platform, Result, ok, err}
use scaffold_go.Lifecycle.Probe.{probe_timeout, wait_for_listener}
use scaffold_go.Lifecycle.Probe.Cost.{IsWithin, wait_for_listener-IsWithin}
use scaffold_go.Lifecycle.Open.{
  serve_mode, put_binding, serving, with_handler, with_server, probed, listened, open_at,
  open_found, open_binding, after_open, open_each, open_bindings,
}
use scaffold_go.Lifecycle.Open.State.{set-allocated}
use scaffold_go.Lifecycle.Shutdown.Servers.{AreAllocated}

abbrev pub is_opening : Call → Bool
is_opening (listen_call r) = true
is_opening (serve_call r mode) = true
is_opening (on_start_call ctx) = false
is_opening (on_stop_call ctx) = false
is_opening (callback_call phase fn) = false
is_opening (clean_call fn) = false
is_opening (shutdown_call r ctx) = false

abbrev pub AreOpenings : List Call → Type 0
AreOpenings = All λ c. is_opening c ≡ true

module _ {World : Type 0} (credit : World → ℕ) where
  -- From `s` to `t` scaffold has listened and served, and has left the rest.
  pub record Opens (s t : Sys World) : Type 0 where
    pub opening : List Call
    pub are_openings : AreOpenings opening
    pub calls_made : calls t.trace ≡ calls s.trace ++ opening
    pub cleaner_kept : t.cleaner ≡ s.cleaner
    pub ready_kept : t.on_listen_ready ≡ s.on_listen_ready
    pub before_kept : t.before_shutdown ≡ s.before_shutdown
    pub allocated :
        (i : ℕ)
        → is_some (get_elem? s.bindings.heap i) ≡ true
        → is_some (get_elem? t.bindings.heap i) ≡ true
    pub spent : credit t.world ≤ credit s.world

  Opens-refl : (s : Sys World) → Opens s s
  Opens-refl s = record {
    opening = [];
    are_openings = tt;
    calls_made = sym (append-nil (calls s.trace));
    cleaner_kept = refl;
    ready_kept = refl;
    before_kept = refl;
    allocated = λ i a. a;
    spent = omega arith;
  }

  Opens-trans : {s t u : Sys World} → Opens s t → Opens t u → Opens s u
  Opens-trans {s} a b = record {
    opening = a.opening ++ b.opening;
    are_openings =
        All-append (λ c. is_opening c ≡ true) a.opening b.opening a.are_openings b.are_openings;
    calls_made =
        b.calls_made
        ∙ ap (λ l. l ++ b.opening) a.calls_made
        ∙ append_assoc (calls s.trace) a.opening b.opening;
    cleaner_kept = b.cleaner_kept ∙ a.cleaner_kept;
    ready_kept = b.ready_kept ∙ a.ready_kept;
    before_kept = b.before_kept ∙ a.before_kept;
    allocated = λ i x. b.allocated i (a.allocated i x);
    spent = omega (arith, a.spent, b.spent);
  }

  emit-Opens : (r : LogRecord) (s : Sys World) → Opens s (emit (logged r) s)
  emit-Opens r s = record {
    opening = [];
    are_openings = tt;
    calls_made = calls-logged s.trace r ∙ sym (append-nil (calls s.trace));
    cleaner_kept = refl;
    ready_kept = refl;
    before_kept = refl;
    allocated = λ i a. a;
    spent = omega arith;
  }

  note-Opens : (c : Call) (s : Sys World) → is_opening c ≡ true → Opens s (note c s)
  note-Opens c s opens = record {
    opening = c ∷ [];
    are_openings = (opens, tt);
    calls_made = calls-called s.trace c;
    cleaner_kept = refl;
    ready_kept = refl;
    before_kept = refl;
    allocated = λ i a. a;
    spent = omega arith;
  }

  put_binding-Opens : (r : ℕ) (b : Binding) (s : Sys World) → Opens s (put_binding r b s)
  put_binding-Opens r b s = record {
    opening = [];
    are_openings = tt;
    calls_made = sym (append-nil (calls s.trace));
    cleaner_kept = refl;
    ready_kept = refl;
    before_kept = refl;
    allocated = λ i a. set-allocated s.bindings.heap r i b a;
    spent = omega arith;
  }

  world-Opens :
      (w : World) (s : Sys World) → credit w ≤ credit s.world → Opens s (record s { world = w })
  world-Opens w s h = record {
    opening = [];
    are_openings = tt;
    calls_made = sym (append-nil (calls s.trace));
    cleaner_kept = refl;
    ready_kept = refl;
    before_kept = refl;
    allocated = λ i a. a;
    spent = h;
  }

  pub AreAllocated-Opens :
      {s t : Sys World} (rs : List ℕ)
      → Opens s t
      → AreAllocated s.bindings.heap rs
      → AreAllocated t.bindings.heap rs
  AreAllocated-Opens [] opens a = tt
  AreAllocated-Opens (r ∷ rs) opens a = (opens.allocated r a.0, AreAllocated-Opens rs opens a.1)

  -- A result, if there is one, has been reached so; and the loop's.
  abbrev Leads : Sys World → Option (Sys World × Option Error) → Type 0
  Leads s none = Unit
  Leads s (some (t, _)) = Opens s t

  abbrev pub LoopLeads : Sys World → Option (Sys World × List ℕ × Option Error) → Type 0
  LoopLeads s none = Unit
  LoopLeads s (some (t, _, _)) = Opens s t

  Leads-after :
      {s t : Sys World} (o : Option (Sys World × Option Error)) → Opens s t → Leads t o → Leads s o
  Leads-after none opens leads = tt
  Leads-after (some (u, _)) opens leads = Opens-trans opens leads

  LoopLeads-after :
      {s t : Sys World} (o : Option (Sys World × List ℕ × Option Error))
      → Opens s t
      → LoopLeads t o
      → LoopLeads s o
  LoopLeads-after none opens leads = tt
  LoopLeads-after (some (u, _, _)) opens leads = Opens-trans opens leads

  module _ (d : Daemon World) (p : Platform World) (fuel : ℕ) (ctx : Context) (log : Logger)
      (listen_free : (a : String) (w : World) → credit (p.listen a w).0 ≤ credit w)
      (dial_free : (a : DialAddr) (w : World) → credit (p.dial a w).0 ≤ credit w)
      (sleep_free : (w : World) → credit (p.sleep ctx w).0 ≤ credit w) where
    probed-Leads :
        (b : Binding) (s : Sys World) (waited : Option (World × Option Error))
        → IsWithin credit (credit s.world) waited
        → Leads s (probed d p fuel ctx log b s waited)
    probed-Leads b s none h = tt
    probed-Leads b s (some (w, none)) h = world-Opens w s h
    probed-Leads b s (some (w, some e)) h = Opens-trans (world-Opens w s h) (emit-Opens _ _)

    listened-Leads :
        (r : ℕ) (b : Binding) (s : Sys World) (answer : Result Addr)
        → Leads s (listened d p fuel ctx log r b s answer)
    listened-Leads r b s (err e) = emit-Opens _ s
    listened-Leads r b s (ok addr) =
        let t = serving p log r addr b s in
        let serves =
          Opens-trans (put_binding-Opens r (with_server addr b) s)
            (Opens-trans (note-Opens (serve_call r (serve_mode b)) _ refl) (emit-Opens _ _)) in
        Leads-after
          (probed d p fuel ctx log b t (wait_for_listener p ctx addr fuel probe_timeout t.world))
          serves
          (probed-Leads b t _ (
            wait_for_listener-IsWithin credit p ctx addr dial_free sleep_free fuel probe_timeout
              t.world))

    open_found-Leads :
        (r : ℕ) (s : Sys World) (o : Option Binding) → Leads s (open_found d p fuel ctx log r s o)
    unfolding open_found open_at
    open_found-Leads r s none = Opens-refl s
    open_found-Leads r s (some b) =
        let c = with_handler d b in
        let t = note (listen_call r) (put_binding r c s) in
        let (w, answer) = p.listen c.listen_addr t.world in
        let listens = Opens-trans (put_binding-Opens r c s) (
          Opens-trans (note-Opens (listen_call r) _ refl)
            (world-Opens w t (listen_free c.listen_addr t.world))) in
        Leads-after (listened d p fuel ctx log r c (record t { world = w }) answer) listens
          (listened-Leads r c _ answer)

    after_open-LoopLeads :
        (next : Sys World → Option (Sys World × List ℕ × Option Error)) (opened : List ℕ)
        (s : Sys World) (o : Option (Sys World × Option Error))
        → Leads s o
        → ((u : Sys World) → LoopLeads u (next u))
        → LoopLeads s (after_open d p fuel ctx log next opened o)
    after_open-LoopLeads next opened s none h k = tt
    after_open-LoopLeads next opened s (some (t, none)) h k = LoopLeads-after (next t) h (k t)
    after_open-LoopLeads next opened s (some (t, some e)) h k = h

    open_each-LoopLeads :
        (rs opened : List ℕ) (s : Sys World) → LoopLeads s (open_each d p fuel ctx log rs opened s)
    unfolding open_each open_binding
    open_each-LoopLeads [] opened s = Opens-refl s
    open_each-LoopLeads (r ∷ rs) opened s =
        after_open-LoopLeads (λ u. open_each d p fuel ctx log rs (opened ++ r ∷ []) u) opened s
          (open_found d p fuel ctx log r s (get_elem? s.bindings.heap r))
          (open_found-Leads r s (get_elem? s.bindings.heap r))
          (λ u. open_each-LoopLeads rs (opened ++ r ∷ []) u)

    pub open_bindings-LoopLeads :
        (order : List ℕ) (s : Sys World) → LoopLeads s (open_bindings d p fuel ctx log order s)
    unfolding open_bindings
    open_bindings-LoopLeads order s = open_each-LoopLeads order [] s
