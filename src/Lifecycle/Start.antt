-- ===== src/Lifecycle/Start.antt =====
-- Start of scaffold.go, and the steps that it shares with Serve.
pub mod Ends
pub mod Sources
pub mod Whole
use scaffold_go.Base.{ℕ, String, Bool, false, ◌||◌, not, is_some, Option, none, some, List, [], ◌∷◌}
use scaffold_go.Go.{
  Outcome, returns, panics, Text, Error, Logger, Level, text_attr, error_attr, pos,
}
use scaffold_go.Context.{Context, enrich_ctx}
use scaffold_go.System.{
  Sys, Daemon, BindingStore, test_bindings, on_listen_ready_phase, on_start_call, note, log_record,
}
use scaffold_go.Platform.{Platform, Result, ok, err}
use scaffold_go.Network.{resolve_bind_address, resolve_advertised_address}
use scaffold_go.Cleaner.{fresh_cleaner}
use scaffold_go.Lifecycle.Callbacks.{run_callbacks}
use scaffold_go.Lifecycle.Open.{open_bindings}
use scaffold_go.Lifecycle.Shutdown.{run_shutdown}
use scaffold_go.Lifecycle.Options.{
  Options, DaemonConfig, resolve_log, framework_logger, resolve_bindings, resolve_config,
  is_test_bindings, ordered_from_bindings, empty_store,
}
use scaffold_go.Lifecycle.Instance.{Instance, set_flag}

-- How a run of Start ends: with an instance, with an error, or with a panic out of OnStart, which
-- nothing recovers.
pub data Started : Type 0 where
  started : Instance → Started
  failed : Error → Started
  panicked : Text → Started

-- `&Options{}`
abbrev pub zero_options : Options
zero_options = record {
  bindings = none;
  config_provider = none;
  secrets_provider = none;
  log = none;
  bind_address = "";
  advertised_address = "";
  on_start_timeout = pos 0;
  on_stop_timeout = pos 0;
}

abbrev pub options_or_zero : Option Options → Options
options_or_zero none = zero_options
options_or_zero (some o) = o

-- A bind and an advertised address, each with its source label.
pub record Addresses : Type 0 where
  pub bind_addr : String
  pub bind_source : String
  pub adv_addr : String
  pub adv_source : String

abbrev pub daemon_config : Options → Logger → Addresses → DaemonConfig
daemon_config o base a = record {
  config = resolve_config o.config_provider (framework_logger base);
  secrets = resolve_config o.secrets_provider (framework_logger base);
  log = base;
  bind_address = a.bind_addr;
  advertised_address = a.adv_addr;
}

-- The end of the two address resolutions, of which the first error counts.
pub data Resolution : Type 0 where
  resolved : Addresses → Resolution
  bad_bind bad_advertised : Error → Resolution

abbrev pub advertised : String × String → Result (String × String) → Resolution
advertised (bind_addr, bind_source) (err e) = bad_advertised e
advertised (bind_addr, bind_source) (ok (adv_addr, adv_source)) = resolved (record {
  bind_addr = bind_addr;
  bind_source = bind_source;
  adv_addr = adv_addr;
  adv_source = adv_source;
})

-- The bindings of the options as they were given.
abbrev pub given_store : Option BindingStore → BindingStore
given_store (some b) = b
given_store none = empty_store test_bindings

module _ {World : Type 0} where
  -- The state before OnStart: nothing registered, the flag clear, an idle cleaner.
  abbrev pub initial : BindingStore → Logger → World → Sys World
  initial store fw w = record {
    bindings = store;
    cleaner = fresh_cleaner fw;
    on_listen_ready = [];
    before_shutdown = [];
    shutdown_flag = false;
    trace = [];
    world = w;
  }

  unfoldable pub announce : Logger → Addresses → Sys World → Sys World
  announce fw a = log_record fw Level.info "daemon starting" (
      text_attr "bind_address" a.bind_addr
      ∷ text_attr "bind_source" a.bind_source
      ∷ text_attr "advertised_address" a.adv_addr
      ∷ text_attr "advertised_source" a.adv_source
      ∷ [])

  -- `flag.Store(true)` and the partial shutdown of a path that failed; its error is dropped.
  abbrev pub failed_with {ℓ} :
      {R : Type ℓ} → R → Option (Sys World × Option (List Error)) → Option (Sys World × R)
  failed_with r none = none
  failed_with r (some (s, errs)) = some (s, r)

  module _ (d : Daemon World) (p : Platform World) (fuel : ℕ) (ctx : Context) (sc : DaemonConfig)
      (fw : Logger) where
    unfoldable pub start_failed : List ℕ → Error → Sys World → Option (Sys World × Started)
    start_failed opened e s =
        failed_with (failed e) (run_shutdown d p ctx fw fuel none opened (set_flag s))

    abbrev instance_of : List ℕ → Instance
    instance_of order = record { sc = sc; fw = fw; bindings_order = order; stopped = false }

    abbrev pub ready : List ℕ → Option (Sys World) → Option (Sys World × Started)
    ready order none = none
    ready order (some s) =
        some (log_record fw Level.info "daemon ready" [] s, started (instance_of order))

    abbrev pub start_opened :
        List ℕ → Option (Sys World × List ℕ × Option Error) → Option (Sys World × Started)
    start_opened order none = none
    start_opened order (some (s, opened, some e)) = start_failed opened e s
    start_opened order (some (s, opened, none)) =
        ready order (run_callbacks d ctx fw fuel (some on_listen_ready_phase) s)

    abbrev pub start_ordered : Sys World → Result (List ℕ) → Option (Sys World × Started)
    start_ordered s (err e) = start_failed [] e s
    start_ordered s (ok order) = start_opened order (open_bindings d p fuel ctx fw order s)

    -- What follows the call of OnStart.
    unfoldable pub start_called : Sys World → Outcome (Option Error) → Option (Sys World × Started)
    start_called s (panics v) = some (s, panicked v)
    start_called s (returns (some e)) =
        start_failed [] e (log_record fw Level.error "OnStart returned error" (error_attr e ∷ []) s)
    start_called s (returns none) = start_ordered s (ordered_from_bindings s.bindings)

    -- From the resolved options on; `ctx` is the enriched one.
    unfoldable pub start_resolved : Addresses → BindingStore → World → Option (Sys World × Started)
    start_resolved a store w =
        let (t, end) =
          d.on_start ctx (note (on_start_call ctx) (announce fw a (initial store fw w))) in
        start_called t end

  abbrev pub bound : Platform World → String → World → Result (String × String) → Resolution
  bound p raw w (err e) = bad_bind e
  bound p raw w (ok (addr, source)) =
      advertised (addr, source) (resolve_advertised_address p addr raw w)

  unfoldable pub resolve_addresses : Platform World → Options → Bool → World → Resolution
  resolve_addresses p o is_test w =
      bound p o.advertised_address w (resolve_bind_address p o.bind_address is_test)

  module _ (d : Daemon World) (p : Platform World) (fuel : ℕ) (ctx : Context) (o : Options)
      (w : World) where
    abbrev pub base : Logger
    base = resolve_log o.log

    abbrev pub refused : Error → Option (Sys World × Started)
    refused e = some (initial (given_store o.bindings) (framework_logger base) w, failed e)

    abbrev pub start_addressed : Resolution → Option (Sys World × Started)
    start_addressed (bad_bind e) = refused e
    start_addressed (bad_advertised e) = refused e
    start_addressed (resolved a) =
        let sc = daemon_config o base a in
        start_resolved d p fuel (enrich_ctx ctx sc.config sc.secrets base) sc
          (framework_logger base) a (resolve_bindings o.bindings false a.bind_addr) w

  -- Start. On an address error nothing has been set up: the state is the initial one. `none` means
  -- that the fuel for a loop ran out.
  unfoldable pub start :
      Daemon World
      → Platform World
      → ℕ
      → Context
      → Option Options
      → World
      → Option (Sys World × Started)
  start d p fuel ctx opts w =
      let o = options_or_zero opts in
      start_addressed d p fuel ctx o w
        (resolve_addresses p o (not (is_some o.bindings) || is_test_bindings o.bindings) w)
