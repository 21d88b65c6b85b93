-- ===== src/Lifecycle/Run.antt =====
-- What a run of the daemon does between OnStart and its end, and what bounds it (scaffold.go).
pub mod Stages
pub mod Order
use scaffold_go.Base.{
  ℕ, suc, String, ◌+◌, ◌≤◌, ◌≡◌, refl, subst, ◌∙◌, true, false, ◌||◌, Option, none, some, List, [],
  ◌∷◌, ◌++◌, map, reverse, length, append-nil,
}
use scaffold_go.Go.{Error, Logger, LogRecord}
use scaffold_go.Context.{Context}
use scaffold_go.Net.{DialAddr}
use scaffold_go.System.{
  Sys, Daemon, Phase, on_listen_ready_phase, before_shutdown_phase, on_start_call, on_stop_call,
  callback_call, clean_call, shutdown_call, Call, calls, note, emit, logged,
}
use scaffold_go.System.Rely.{Grows, Rely, IsCivil, Does, Does-trans, calls-logged}
use scaffold_go.Platform.{Platform}
use scaffold_go.Lifecycle.Callbacks.{callbacks}
use scaffold_go.Lifecycle.Callbacks.Cost.{load, load-phase}
use scaffold_go.Lifecycle.Open.Order.{IsOpening}
use scaffold_go.Lifecycle.Open.Frame.{Opens}
use scaffold_go.Lifecycle.Shutdown.Servers.{servers}

-- What bounds a run: `credit` reads, off the state of the code outside, how many callbacks it may
-- still register; registering one pays for it, and listening, dialling and waiting add none.
pub record IsBounded {World : Type 0} (d : Daemon World) (p : Platform World) (credit : World → ℕ)
    : Type 0 where
  pub on_start_spends :
      (ctx : Context) (s : Sys World) → load credit (d.on_start ctx s).0 ≤ load credit s
  pub callback_spends :
      (ctx : Context) (fn : ℕ) (s : Sys World) → load credit (d.callback fn ctx s).0 ≤ load credit s
  pub listen_free : (a : String) (w : World) → credit (p.listen a w).0 ≤ credit w
  pub dial_free : (a : DialAddr) (w : World) → credit (p.dial a w).0 ≤ credit w
  pub sleep_free : (ctx : Context) (w : World) → credit (p.sleep ctx w).0 ≤ credit w

-- What the service does by itself while the daemon is up.
pub record IsWellBehaved {World : Type 0} (credit : World → ℕ) (meanwhile : Sys World → Sys World)
    : Type 0 where
  pub spends : (s : Sys World) → load credit (meanwhile s) ≤ load credit s
  pub keeps : (s : Sys World) → Rely s (meanwhile s)

-- From the state `u`, in which the bindings `opened` have been opened, or the next has failed, to
-- the end of the shutdown in the state `t`: the calls in between, in order, of which those of
-- callbacks are none after a failure. The shutdown has the context `ctx`.
pub record IsServed {World : Type 0} (ctx : Context) (u : Sys World) (opened : List ℕ)
    (failure : Option Error) (t : Sys World) : Type 0 where
  pub ready : List ℕ
  pub before : List ℕ
  pub cleaned : List ℕ
  pub calls_made :
      calls t.trace
      ≡ calls u.trace
        ++ (map (callback_call on_listen_ready_phase) ready
            ++ (map (callback_call before_shutdown_phase) before
                ++ (map (λ r. shutdown_call r ctx) (servers u.bindings.heap (reverse opened))
                    ++ on_stop_call ctx ∷ map clean_call (reverse cleaned))))
  pub succeeded : failure ≡ none → Grows u.on_listen_ready ready × Grows u.before_shutdown before
  pub failed : (e : Error) → failure ≡ some e → (ready ≡ []) × (before ≡ [])
  pub cleaned_grown : Grows u.cleaner.stack cleaned
  pub cleaner_done : t.cleaner.done ≡ true
  pub cleaner_empty : t.cleaner.stack ≡ []

module _ {World : Type 0} where
  pub Does-then : {cs : List Call} {s t u : Sys World} → Does cs s t → Does [] t u → Does cs s u
  Does-then {cs} {s} {t} {u} a b = subst (λ l. Does l s u) (append-nil cs) (Does-trans a b)

  -- A log record at the end.
  pub IsServed-logged :
      (ctx : Context) (u : Sys World) (opened : List ℕ) (failure : Option Error) (t : Sys World)
      (r : LogRecord)
      → IsServed ctx u opened failure t
      → IsServed ctx u opened failure (emit (logged r) t)
  IsServed-logged ctx u opened failure t r served = record {
    ready = served.ready;
    before = served.before;
    cleaned = served.cleaned;
    calls_made = calls-logged t.trace r ∙ served.calls_made;
    succeeded = served.succeeded;
    failed = served.failed;
    cleaned_grown = served.cleaned_grown;
    cleaner_done = served.cleaner_done;
    cleaner_empty = served.cleaner_empty;
  }

  -- The state in which OnStart has returned.
  abbrev pub after_start : Daemon World → Context → Sys World → Sys World
  after_start d ctx s = (d.on_start ctx (note (on_start_call ctx) s)).0

  module _ (d : Daemon World) (p : Platform World) (credit : World → ℕ) (rounds : ℕ) (ctx : Context)
      (log : Logger) where
    -- From the call of OnStart in `s` to the end of openBindings in `u`.
    pub record IsOpened (order : List ℕ) (s u : Sys World) (opened : List ℕ)
        (failure : Option Error) : Type 0 where
      pub started : calls (after_start d ctx s).trace ≡ calls s.trace ++ on_start_call ctx ∷ []
      pub opens : Opens credit (after_start d ctx s) u
      pub opening :
          IsOpening d p (suc rounds) ctx log order [] (after_start d ctx s) u opened failure

  module _ (d : Daemon World) (p : Platform World) (civil : IsCivil d) (credit : World → ℕ)
      (bounded : IsBounded d p credit) where
    pub callback-phase :
        (ctx : Context) (phase : Phase) (fn : ℕ) (s : Sys World)
        → let t = (d.callback fn ctx s).0 in
          length (callbacks phase t) + credit t.world ≤ length (callbacks phase s) + credit s.world
    callback-phase ctx phase fn s =
        load-phase credit phase s (d.callback fn ctx s).0 (civil.callback_rely fn ctx s).steady
          (bounded.callback_spends ctx fn s)
