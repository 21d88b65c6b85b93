-- ===== src/Lifecycle/Start/Whole.antt =====
-- Start from its options to its return, and the Stop of its instance, on every path.
use scaffold_go.Base.{
  ℕ, suc, Bool, false, not, is_some, ◌*◌, ◌≤◌, ◌<◌, ◌≡◌, refl, sym, ap, ◌∙◌, ◌||◌, ◌⊎◌, inl, inr,
  Option, none, some, List, [], ◌∷◌, ◌++◌,
}
use scaffold_go.Go.{Outcome, returns, panics, Text, Error, Logger}
use scaffold_go.Context.{Context, enrich_ctx}
use scaffold_go.Net.{Addr}
use scaffold_go.System.{Sys, Daemon, BindingStore, on_start_call, calls, note}
use scaffold_go.System.Rely.{IsCivil, Does-refl, Does-trans, logged-Does, note-Does, Rely-Does}
use scaffold_go.Platform.{Platform, err}
use scaffold_go.Bindings.Store.{IsWellFormed}
use scaffold_go.Api.Store.{AreGivenWellFormed, resolve_bindings-IsWellFormed}
use scaffold_go.Lifecycle.Callbacks.{run_callbacks}
use scaffold_go.Lifecycle.Probe.{probe_timeout, probe_pause}
use scaffold_go.Lifecycle.Probe.Ends.{IsTimely}
use scaffold_go.Lifecycle.Shutdown.{run_shutdown}
use scaffold_go.Lifecycle.Shutdown.Order.{IsCivilServer}
use scaffold_go.Lifecycle.Options.{
  Options, DaemonConfig, resolve_log, framework_logger, resolve_bindings, is_test_bindings,
  ordered_from_bindings, unsupported_bindings,
}
use scaffold_go.Lifecycle.Run.{IsBounded, IsWellBehaved, IsOpened, after_start}
use scaffold_go.Lifecycle.Run.Order.{order_of, order_of-AreAllocated, ordered_from_bindings-cases}
use scaffold_go.Lifecycle.Start.{
  Addresses, Started, failed, panicked, Resolution, resolved, bad_bind, bad_advertised,
  options_or_zero, initial, announce, daemon_config, start_failed, start_ordered, start_called,
  start_resolved, resolve_addresses, start_addressed, start,
}
use scaffold_go.Lifecycle.Start.Ends.{IsStarted, start_resolved_ends}
use scaffold_go.Lifecycle.Serve.Failure.{IsPartial, teardown-IsPartial}

module _ {World : Type 0} (d : Daemon World) (p : Platform World) (credit : World → ℕ) (rounds : ℕ)
    (meanwhile : Sys World → Sys World) (stop_ctx : Context) where
  module _ (ctx : Context) (sc : DaemonConfig) (fw : Logger) where
    -- How a run that begins in `s` ends, by what OnStart has done.
    pub data IsStartEnd (s t : Sys World) (r : Started) : Type 0 where
      on_start_panicked :
          (v : Text)
          → (d.on_start ctx (note (on_start_call ctx) s)).1 ≡ panics v
          → r ≡ panicked v
          → calls t.trace ≡ calls s.trace ++ on_start_call ctx ∷ []
          → IsStartEnd s t r
      on_start_failed :
          (e : Error)
          → (d.on_start ctx (note (on_start_call ctx) s)).1 ≡ returns (some e)
          → r ≡ failed e
          → IsPartial d ctx ctx s t
          → IsStartEnd s t r
      bindings_refused :
          (d.on_start ctx (note (on_start_call ctx) s)).1 ≡ returns none
          → ordered_from_bindings (after_start d ctx s).bindings ≡ err unsupported_bindings
          → r ≡ failed unsupported_bindings
          → IsPartial d ctx ctx s t
          → IsStartEnd s t r
      opened :
          (u : Sys World) (done : List ℕ) (failure : Option Error)
          → (d.on_start ctx (note (on_start_call ctx) s)).1 ≡ returns none
          → IsOpened d p credit rounds ctx fw
              (order_of (after_start d ctx s).bindings)
              s
              u
              done
              failure
          → IsStarted d p (suc rounds) ctx sc meanwhile stop_ctx u done failure t r
          → IsStartEnd s t r

  module _ (o : Options) (ctx : Context) where
    abbrev base : Logger
    base = resolve_log o.log

    abbrev pub is_test : Bool
    is_test = not (is_some o.bindings) || is_test_bindings o.bindings

    abbrev pub config_of : Addresses → DaemonConfig
    config_of a = daemon_config o base a

    abbrev pub start_ctx_of : Addresses → Context
    start_ctx_of a = enrich_ctx ctx (config_of a).config (config_of a).secrets base

    -- The state in which OnStart is called.
    abbrev pub begun : World → Addresses → Sys World
    begun w a =
        announce (framework_logger base) a
          (initial (resolve_bindings o.bindings false a.bind_addr) (framework_logger base) w)

    -- How Start ends, from its options on.
    pub data IsStartDone (w : World) (t : Sys World) (r : Started) : Type 0 where
      address_refused :
          (e : Error)
          → (resolve_addresses p o is_test w ≡ bad_bind e)
            ⊎ (resolve_addresses p o is_test w ≡ bad_advertised e)
          → r ≡ failed e
          → calls t.trace ≡ []
          → IsStartDone w t r
      addressed :
          (a : Addresses)
          → resolve_addresses p o is_test w ≡ resolved a
          → IsStartEnd (start_ctx_of a) (config_of a) (framework_logger base) (begun w a) t r
          → IsStartDone w t r

module _ {World : Type 0} (d : Daemon World) (p : Platform World) (civil : IsCivil d)
    (civil_server : IsCivilServer p) (credit : World → ℕ) (bounded : IsBounded d p credit)
    (rounds : ℕ) (meanwhile : Sys World → Sys World) (behaved : IsWellBehaved credit meanwhile)
    (stop_ctx : Context) (enough : probe_timeout < probe_pause * rounds) (w : World)
    (h : credit w ≤ rounds) where
  module _ (ctx : Context) (sc : DaemonConfig) (fw : Logger)
      (timely : (addr : Addr) → IsTimely p ctx addr) (a : Addresses) (store : BindingStore) where
    abbrev first : Sys World
    first = announce fw a (initial store fw w)

    called_ends :
        IsWellFormed (after_start d ctx first).bindings
        → (end : Outcome (Option Error)) → (d.on_start ctx (note (on_start_call ctx) first)).1 ≡ end
        → (t : Sys World) × (r : Started) × (start_called d p
              (suc rounds)
              ctx
              sc
              fw
              (after_start d ctx first)
              end
            ≡ some (t, r))
          × IsStartEnd d p credit rounds meanwhile stop_ctx ctx sc fw first t r
    unfolding start_resolved start_called start_failed run_shutdown run_callbacks announce
    called_ends kept (panics v) e =
        let starts =
          Does-trans (note-Does (on_start_call ctx) first)
            (Rely-Does (civil.on_start_rely ctx (note (on_start_call ctx) first))) in
        (after_start d ctx first, panicked v, refl, on_start_panicked v e refl starts.calls_made)
    called_ends kept (returns (some failure)) e = (
      _,
      _,
      refl,
      on_start_failed failure e refl
          (teardown-IsPartial d p civil civil_server ctx ctx fw first _ refl (logged-Does _ _)),
    )
    called_ends kept (returns none) e =
        elim (ordered_from_bindings-cases (after_start d ctx first).bindings kept) [
          | inl refused ↦ (
            _,
            _,
            ap (start_ordered d p (suc rounds) ctx sc fw (after_start d ctx first)) refused,
            bindings_refused e refused refl
                (teardown-IsPartial d p civil civil_server ctx ctx fw first _ refl (Does-refl _)),
          )
          | inr iterates ↦
              let order = order_of (after_start d ctx first).bindings in
              let (t, r, u, done, failure, ends, is_opened, is_started) =
                start_resolved_ends d p civil civil_server credit bounded rounds ctx sc fw meanwhile
                  behaved stop_ctx timely enough a store w order h e iterates
                  (order_of-AreAllocated (after_start d ctx first).bindings) in
              (
                t,
                r,
                sym (ap (start_called d p (suc rounds) ctx sc fw (after_start d ctx first)) e)
                    ∙ ends,
                opened u done failure e is_opened is_started,
              )
        ]

  module _ (timely : (c : Context) (addr : Addr) → IsTimely p c addr)
      (keeps : (c : Context) (s : Sys World)
        → IsWellFormed s.bindings
        → IsWellFormed (d.on_start c s).0.bindings)
      (ctx : Context) where
    addressed_ends :
        (o : Options) (given : AreGivenWellFormed o.bindings) (to : Resolution)
        → resolve_addresses p o (is_test d p credit rounds meanwhile stop_ctx o ctx) w ≡ to
        → (t : Sys World) × (r : Started) × (start_addressed d p (suc rounds) ctx o w to
            ≡ some (t, r))
          × IsStartDone d p credit rounds meanwhile stop_ctx o ctx w t r
    unfolding start_resolved announce
    addressed_ends o given (bad_bind e) refused =
        (_, _, refl, address_refused e (inl refused) refl refl)
    addressed_ends o given (bad_advertised e) refused =
        (_, _, refl, address_refused e (inr refused) refl refl)
    addressed_ends o given (resolved a) found =
        let sc = config_of d p credit rounds meanwhile stop_ctx o ctx a in
        let fw = framework_logger (resolve_log o.log) in
        let c = start_ctx_of d p credit rounds meanwhile stop_ctx o ctx a in
        let store = resolve_bindings o.bindings false a.bind_addr in
        let s = announce fw a (initial store fw w) in
        let (t, r, ends, end) =
          called_ends c sc fw (timely c) a store
            (keeps c (note (on_start_call c) s)
              (resolve_bindings-IsWellFormed o.bindings false a.bind_addr given))
            (d.on_start c (note (on_start_call c) s)).1 refl in
        (t, r, ends, addressed a found end)

    -- Start returns on every path.
    pub start_total :
        (opts : Option Options)
        → AreGivenWellFormed (options_or_zero opts).bindings
        → (t : Sys World) × (r : Started) × (start d p (suc rounds) ctx opts w ≡ some (t, r))
          × IsStartDone d p credit rounds meanwhile stop_ctx (options_or_zero opts) ctx w t r
    unfolding start
    start_total opts given =
        addressed_ends (options_or_zero opts) given
          (resolve_addresses p (options_or_zero opts)
            (is_test d p credit rounds meanwhile stop_ctx (options_or_zero opts) ctx) w)
          refl
