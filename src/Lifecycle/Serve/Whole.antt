-- ===== src/Lifecycle/Serve/Whole.antt =====
-- Serve from its options to its end, on every path.
use scaffold_go.Base.{
  ℕ, suc, String, true, false, ◌*◌, ◌≤◌, ◌<◌, ◌≡◌, refl, sym, ap, subst, ◌∙◌, ◌||◌, ◌⊎◌, inl, inr,
  Option, none, some, List, [], ◌∷◌, ◌++◌, Bool-cases, arith,
}
use scaffold_go.Go.{Outcome, returns, panics, Text, Error, Logger}
use scaffold_go.Context.{Context, enrich_ctx}
use scaffold_go.Net.{Addr}
use scaffold_go.System.{Sys, Daemon, BindingStore, on_start_call, calls, note}
use scaffold_go.System.Rely.{IsCivil, Does-trans, logged-Does, note-Does, Rely-Does}
use scaffold_go.Platform.{Platform, err}
use scaffold_go.Bindings.Store.{IsWellFormed}
use scaffold_go.Api.Store.{AreGivenWellFormed, resolve_bindings-IsWellFormed}
use scaffold_go.Lifecycle.Callbacks.{run_callbacks}
use scaffold_go.Lifecycle.Callbacks.Cost.{load}
use scaffold_go.Lifecycle.Probe.{probe_timeout, probe_pause}
use scaffold_go.Lifecycle.Probe.Ends.{IsTimely}
use scaffold_go.Lifecycle.Shutdown.{run_shutdown}
use scaffold_go.Lifecycle.Shutdown.Order.{IsCivilServer}
use scaffold_go.Lifecycle.Options.{
  Options, DaemonConfig, resolve_log, framework_logger, resolve_bindings, is_test_bindings,
  ordered_from_bindings, unsupported_bindings,
}
use scaffold_go.Lifecycle.Run.{IsBounded, IsWellBehaved, IsServed, IsOpened, after_start}
use scaffold_go.Lifecycle.Run.Order.{order_of, order_of-AreAllocated, ordered_from_bindings-cases}
use scaffold_go.Lifecycle.Start.{
  Addresses, Resolution, resolved, bad_bind, bad_advertised, initial, announce, daemon_config,
  resolve_addresses,
}
use scaffold_go.Lifecycle.Serve.{
  Served, exits, panicked, exit_failure, shutdown_ctx, serve_failed, serve_ordered, serve_called,
  serve_resolved, warn_loopback, is_loopback_addr, build_start_ctx, serve_addressed, serve,
}
use scaffold_go.Lifecycle.Serve.Ends.{code_of, serve_resolved_ends}
use scaffold_go.Lifecycle.Serve.Failure.{IsPartial, teardown-IsPartial}

module _ {World : Type 0} (d : Daemon World) (p : Platform World) (credit : World → ℕ) (rounds : ℕ)
    (o : Options) where
  module _ (start_ctx : Context) (sc : DaemonConfig) (fw : Logger) where
    -- How a run that begins in `s` ends, by what OnStart has done.
    pub data IsServeEnd (s t : Sys World) (r : Served) : Type 0 where
      start_panicked :
          (v : Text)
          → (d.on_start start_ctx (note (on_start_call start_ctx) s)).1 ≡ panics v
          → r ≡ panicked v
          → calls t.trace ≡ calls s.trace ++ on_start_call start_ctx ∷ []
          → IsServeEnd s t r
      start_failed :
          (e : Error)
          → (d.on_start start_ctx (note (on_start_call start_ctx) s)).1 ≡ returns (some e)
          → r ≡ exits exit_failure
          → IsPartial d start_ctx (shutdown_ctx d p (suc rounds) start_ctx o sc fw) s t
          → IsServeEnd s t r
      bindings_refused :
          (d.on_start start_ctx (note (on_start_call start_ctx) s)).1 ≡ returns none
          → ordered_from_bindings (after_start d start_ctx s).bindings ≡ err unsupported_bindings
          → r ≡ exits exit_failure
          → IsPartial d start_ctx (shutdown_ctx d p (suc rounds) start_ctx o sc fw) s t
          → IsServeEnd s t r
      served :
          (u : Sys World) (opened : List ℕ) (failure : Option Error)
          → (d.on_start start_ctx (note (on_start_call start_ctx) s)).1 ≡ returns none
          → r ≡ exits (code_of failure)
          → IsOpened d p credit rounds start_ctx fw
              (order_of (after_start d start_ctx s).bindings)
              s
              u
              opened
              failure
          → IsServed (shutdown_ctx d p (suc rounds) start_ctx o sc fw) u opened failure t
          → IsServeEnd s t r

  module _ (ctx : Context) where
    abbrev base : Logger
    base = resolve_log o.log

    abbrev fw : Logger
    fw = framework_logger base

    abbrev config_of : Addresses → DaemonConfig
    config_of a = daemon_config o base a

    abbrev pub start_ctx_of : Addresses → Context
    start_ctx_of a =
        enrich_ctx (build_start_ctx ctx o.on_start_timeout) (config_of a).config
          (config_of a).secrets base

    -- The state in which OnStart is called.
    abbrev pub begun : World → Addresses → Sys World
    begun w a = announce fw a (
        warn_loopback p fw a.adv_addr (initial (resolve_bindings o.bindings true a.bind_addr) fw w))

    -- How Serve ends, from its options on.
    pub data IsServeDone (w : World) (t : Sys World) (r : Served) : Type 0 where
      address_refused :
          (e : Error)
          → (resolve_addresses p o (is_test_bindings o.bindings) w ≡ bad_bind e)
            ⊎ (resolve_addresses p o (is_test_bindings o.bindings) w ≡ bad_advertised e)
          → r ≡ exits exit_failure
          → calls t.trace ≡ []
          → IsServeDone w t r
      addressed :
          (a : Addresses)
          → resolve_addresses p o (is_test_bindings o.bindings) w ≡ resolved a
          → IsServeEnd (start_ctx_of a) (config_of a) fw (begun w a) t r
          → IsServeDone w t r

module _ {World : Type 0} (d : Daemon World) (p : Platform World) (civil : IsCivil d)
    (civil_server : IsCivilServer p) (credit : World → ℕ) (bounded : IsBounded d p credit)
    (rounds : ℕ) (o : Options) (ctx : Context) where
  module _ (start_ctx : Context) (sc : DaemonConfig) (fw : Logger) where
    module _ (waits : IsWellBehaved credit (λ s. (p.await_stop ctx s).0))
        (timely : (addr : Addr) → IsTimely p start_ctx addr)
        (enough : probe_timeout < probe_pause * rounds) (s : Sys World)
        (idle : (s.cleaner.running || s.cleaner.done) ≡ false) (h : load credit s ≤ rounds)
        (w : IsWellFormed (after_start d start_ctx s).bindings) where
      called_ends :
          (end : Outcome (Option Error))
          → (d.on_start start_ctx (note (on_start_call start_ctx) s)).1 ≡ end
          → (t : Sys World) × (r : Served) × (serve_called d p
                (suc rounds)
                start_ctx
                o
                sc
                fw
                ctx
                (after_start d start_ctx s)
                end
              ≡ some (t, r))
            × IsServeEnd d p credit rounds o start_ctx sc fw s t r
      unfolding serve_resolved serve_called serve_failed run_shutdown run_callbacks
      called_ends (panics v) e =
          let starts =
            Does-trans (note-Does (on_start_call start_ctx) s)
              (Rely-Does (civil.on_start_rely start_ctx (note (on_start_call start_ctx) s))) in
          (after_start d start_ctx s, panicked v, refl, start_panicked v e refl starts.calls_made)
      called_ends (returns (some failure)) e = (
        _,
        _,
        refl,
        start_failed failure e refl
            (teardown-IsPartial d p civil civil_server start_ctx _ fw s _ idle (logged-Does _ _)),
      )
      called_ends (returns none) e =
          elim (ordered_from_bindings-cases (after_start d start_ctx s).bindings w) [
            | inl refused ↦ (
              _,
              _,
              ap (serve_ordered d p (suc rounds) start_ctx o sc fw ctx (after_start d start_ctx s))
                  refused,
              bindings_refused e refused refl (
                  teardown-IsPartial d p civil civil_server start_ctx _ fw s _ idle
                    (logged-Does _ _)),
            )
            | inr iterates ↦
                let order = order_of (after_start d start_ctx s).bindings in
                let (t, u, opened, failure, ends, is_opened, is_served) =
                  serve_resolved_ends d p civil civil_server credit bounded rounds start_ctx o sc fw
                    ctx waits timely enough s order idle h e iterates
                    (order_of-AreAllocated (after_start d start_ctx s).bindings) in
                (
                  t,
                  exits (code_of failure),
                  sym (
                        ap
                          (serve_called d p (suc rounds) start_ctx o sc fw ctx
                            (after_start d start_ctx s))
                          e)
                      ∙ ends,
                  served u opened failure e refl is_opened is_served,
                )
          ]

      serve_resolved_total :
          (t : Sys World) × (r : Served) × (serve_resolved d p (suc rounds) start_ctx o sc fw ctx s
            ≡ some (t, r))
          × IsServeEnd d p credit rounds o start_ctx sc fw s t r
      unfolding serve_resolved
      serve_resolved_total =
          called_ends (d.on_start start_ctx (note (on_start_call start_ctx) s)).1 refl

  -- What holds when OnStart is called.
  record IsFresh (w : World) (store : BindingStore) (s : Sys World) : Type 0 where
    idle : (s.cleaner.running || s.cleaner.done) ≡ false
    light : load credit s ≡ credit w
    bindings_are : s.bindings ≡ store

  warn_loopback-IsFresh :
      (w : World) (store : BindingStore) (adv_addr : String) (s : Sys World)
      → IsFresh w store s
      → IsFresh w store (warn_loopback p (fw d p credit rounds o ctx) adv_addr s)
  warn_loopback-IsFresh w store adv_addr s f =
      elim (Bool-cases (is_loopback_addr p (p.parse_ip adv_addr))) [
        | inl loopback ↦
            rw loopback (record { idle = f.idle; light = f.light; bindings_are = f.bindings_are })
        | inr other ↦ rw other f
      ]

  begun-IsFresh :
      (w : World) (a : Addresses)
      → IsFresh w (resolve_bindings o.bindings true a.bind_addr) (begun d p credit rounds o ctx w a)
  unfolding announce
  begun-IsFresh w a =
      let store = resolve_bindings o.bindings true a.bind_addr in
      let f =
        warn_loopback-IsFresh w store a.adv_addr (initial store (fw d p credit rounds o ctx) w)
          (record { idle = refl; light = omega arith; bindings_are = refl }) in
      record { idle = f.idle; light = f.light; bindings_are = f.bindings_are }

  module _ (waits : IsWellBehaved credit (λ s. (p.await_stop ctx s).0))
      (timely : (c : Context) (addr : Addr) → IsTimely p c addr)
      (enough : probe_timeout < probe_pause * rounds)
      (keeps : (c : Context) (s : Sys World)
        → IsWellFormed s.bindings
        → IsWellFormed (d.on_start c s).0.bindings)
      (given : AreGivenWellFormed o.bindings) (w : World) (h : credit w ≤ rounds) where
    addressed_ends :
        (to : Resolution)
        → resolve_addresses p o (is_test_bindings o.bindings) w ≡ to
        → (t : Sys World) × (r : Served) × (serve_addressed d p (suc rounds) ctx o w to
            ≡ some (t, r))
          × IsServeDone d p credit rounds o ctx w t r
    addressed_ends (bad_bind e) refused = (_, _, refl, address_refused e (inl refused) refl refl)
    addressed_ends (bad_advertised e) refused =
        (_, _, refl, address_refused e (inr refused) refl refl)
    addressed_ends (resolved a) found =
        let f = begun-IsFresh w a in
        let (t, r, ends, end) =
          serve_resolved_total (start_ctx_of d p credit rounds o ctx a)
            (config_of d p credit rounds o ctx a) (fw d p credit rounds o ctx) waits
            (timely (start_ctx_of d p credit rounds o ctx a)) enough
            (begun d p credit rounds o ctx w a) f.idle (omega (arith, f.light, h))
            (keeps (start_ctx_of d p credit rounds o ctx a)
              (note (on_start_call (start_ctx_of d p credit rounds o ctx a))
                (begun d p credit rounds o ctx w a))
              (subst IsWellFormed (sym f.bindings_are)
                (resolve_bindings-IsWellFormed o.bindings true a.bind_addr given))) in
        (t, r, ends, addressed a found end)

    -- Serve ends on every path.
    pub serve_total :
        (t : Sys World) × (r : Served) × (serve d p (suc rounds) ctx o w ≡ some (t, r))
        × IsServeDone d p credit rounds o ctx w t r
    unfolding serve
    serve_total = addressed_ends (resolve_addresses p o (is_test_bindings o.bindings) w) refl
