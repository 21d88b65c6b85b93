-- ===== src/Tests/Running.antt =====
-- Runs of the lifecycle: opening the bindings, the callbacks, the probe, and the shutdown.
use scaffold_go.Base.{
  ◌++◌, String, ℕ, ◌≡◌, refl, true, false, Option, none, some, List, [], ◌∷◌, map, arith,
}
use scaffold_go.Go.{Error, external}
use scaffold_go.Context.{background}
use scaffold_go.Net.{translate_dial_addr}
use scaffold_go.System.{
  Sys, Call, on_listen_ready_phase, before_shutdown_phase, calls, callback_call, listen_call,
  serve_call,
}
use scaffold_go.System.Rely.{Does}
use scaffold_go.Cleaner.{clean, run_each, run_one}
use scaffold_go.Lifecycle.Callbacks.{callbacks, run_callback, callbacks_from, run_callbacks}
use scaffold_go.Lifecycle.Callbacks.Order.{run_callbacks-Does, run_callbacks_total}
use scaffold_go.Lifecycle.Probe.{probe_timeout, probe, wait_for_listener}
use scaffold_go.Lifecycle.Probe.Ends.{IsExplained, wait_for_listener_total, probe-IsExplained}
use scaffold_go.Lifecycle.Open.{
  serve_returned, serve_mode, open_bindings, open_each, open_binding, open_found, open_at,
  with_handler, with_server,
}
use scaffold_go.Lifecycle.Open.Order.{IsOpening}
use scaffold_go.Lifecycle.Open.Leak.{NoShutdowns, leaked, open_bindings_leak}
use scaffold_go.Lifecycle.Shutdown.{
  shutdown_binding, shutdown_each, call_on_stop, teardown, run_shutdown,
}
use scaffold_go.Lifecycle.Shutdown.Servers.{has_server}
use scaffold_go.Lifecycle.Shutdown.Order.{IsShutDown}
use scaffold_go.Lifecycle.Shutdown.Errors.{IsReported, run_shutdown-IsReported}
use scaffold_go.Lifecycle.Open.Ends.{open_bindings_ends}
use scaffold_go.Lifecycle.Shutdown.Ends.{run_shutdown_ends}
use scaffold_go.Net.{v4}
use scaffold_go.Platform.{Interface, Platform, ok}
use scaffold_go.Network.{auto_detect_address, detected}
use scaffold_go.Network.Scan.{IsFirst, usable, auto_detect_address-IsFirst}
use scaffold_go.Lifecycle.Loops.{
  Loop, Daemons, started, returned, observed, finished, Reach, here, next, starts, flags, shuts,
  returns, observes, logs, with_loop,
}
use scaffold_go.Lifecycle.Loops.Quiet.{reported, Reach-quiet}
use scaffold_go.Tests.Service.{platform-IsTimely_at}
use scaffold_go.Lifecycle.Options.{framework_logger}
use scaffold_go.Lifecycle.Instance.{set_flag, Instance, stop}
use scaffold_go.Lifecycle.Instance.Once.{stop_once_only}
use scaffold_go.Tests.Service.{
  service, platform, ending_platform, service-IsCivil, platform-IsCivilServer, platform-IsTimely,
  ctx, log, address, plain, state, configuration,
}

-- The state in which the bindings have been opened.
opened :
    (t : Sys ℕ) × (open_bindings service platform 10 ctx log (0 ∷ 1 ∷ []) state
      ≡ some (t, 0 ∷ 1 ∷ [], none))
unfolding open_bindings open_each open_binding open_found open_at with_handler wait_for_listener
    probe translate_dial_addr with_server serve_mode
opened = (_, refl)

-- A whole shutdown of the opened state.
shut_down :
    (t : Sys ℕ) × (errs : Option (List Error)) × (run_shutdown service platform ctx log 10
        (some before_shutdown_phase)
        (0 ∷ 1 ∷ [])
        opened.0
      ≡ some (t, errs))
unfolding run_shutdown run_callbacks callbacks_from run_callback teardown shutdown_each
    shutdown_binding call_on_stop clean run_each run_one opened with_server with_handler
shut_down = (_, _, refl)

run_shutdown-IsReported_example :
    IsReported service platform service-IsCivil platform-IsCivilServer ctx log opened.0
      (shut_down.0, shut_down.1)
run_shutdown-IsReported_example =
    run_shutdown-IsReported service platform service-IsCivil platform-IsCivilServer ctx log 10
      (some before_shutdown_phase) (0 ∷ 1 ∷ []) opened.0 shut_down.0 shut_down.1 shut_down.2

called_back :
    (t : Sys ℕ) × (run_callbacks service ctx log 10 (some on_listen_ready_phase) state ≡ some t)
unfolding run_callbacks callbacks_from run_callback
called_back = (_, refl)

run_callbacks-Does_example :
    Does
      (map (callback_call on_listen_ready_phase) (callbacks on_listen_ready_phase called_back.0))
      state
      called_back.0
run_callbacks-Does_example =
    run_callbacks-Does service service-IsCivil ctx log 10 on_listen_ready_phase state called_back.0
      called_back.1

run_callbacks_total_example :
    (t : Sys ℕ) × (run_callbacks service ctx log 3 (some on_listen_ready_phase) state ≡ some t)
run_callbacks_total_example =
    run_callbacks_total service service-IsCivil ctx log on_listen_ready_phase (λ w. 0)
      (λ fn s. omega arith) 3 state (omega arith)

wait_for_listener_total_example :
    (r : ℕ × Option Error) × (wait_for_listener platform ctx address 502 probe_timeout 0 ≡ some r)
wait_for_listener_total_example =
    wait_for_listener_total platform ctx address platform-IsTimely 501 probe_timeout 0 (omega arith)

probe-IsExplained_example : IsExplained platform ctx address 100000000 (20000000, none)
unfolding probe translate_dial_addr
probe-IsExplained_example =
    probe-IsExplained platform ctx address 5 100000000 0 (20000000, none) refl

-- The first binding opened, and the second, an HTTP one, whose probe fails.
abbrev one_open : Sys ℕ
one_open = opened_first (open_bindings service ending_platform 5 ctx log (1 ∷ []) state)
  where
    opened_first : Option (Sys ℕ × List ℕ × Option Error) → Sys ℕ
    opened_first none = state
    opened_first (some x) = x.0

open_bindings_leak_example :
    let u = leaked service ending_platform 5 ctx log 0 [] one_open plain address 2 2 (external 3) in
    (open_bindings service ending_platform 5 ctx log (1 ∷ 0 ∷ []) state
      ≡ some (u, 1 ∷ [], some (external 3)))
    × (has_server u.bindings.heap 0 ≡ true)
    × (calls u.trace
        ≡ calls one_open.trace
          ++ listen_call 0 ∷ serve_call 0 (serve_mode (with_handler service plain)) ∷ [])
    × ((t : Sys ℕ) × (errs : Option (List Error)) × (new : List Call) × (run_shutdown service
            ending_platform ctx log 3 none
            (1 ∷ [])
            (set_flag u)
          ≡ some (t, errs))
        × (calls t.trace ≡ calls u.trace ++ new)
        × NoShutdowns 0 new)
unfolding open_bindings wait_for_listener probe with_handler open_each open_binding open_found
    open_at
open_bindings_leak_example =
    open_bindings_leak service ending_platform 5 ctx log 0 [] one_open plain address 2 2
      (external 3) service-IsCivil platform-IsCivilServer (1 ∷ []) state ctx 3 refl refl refl refl
      refl ((λ e. cc), tt) (refl, tt) refl

abbrev instance_running : Instance
instance_running = record {
  sc = configuration;
  fw = framework_logger log;
  bindings_order = 0 ∷ [];
  stopped = false;
}

stopped :
    (i : Instance) × (t : Sys ℕ) × (errs : Option (List Error)) × (stop service platform 10 ctx
        instance_running opened.0
      ≡ some (i, t, errs))
unfolding stop run_shutdown run_callbacks callbacks_from run_callback teardown shutdown_each
    shutdown_binding call_on_stop clean run_each run_one opened with_server with_handler
stopped = (_, _, _, refl)

stop_once_only_example :
    stop service platform 2 background stopped.0 state ≡ some (stopped.0, state, none)
stop_once_only_example =
    stop_once_only service platform 10 2 ctx background instance_running stopped.0 opened.0
      stopped.1 state stopped.2 stopped.3

open_bindings_ends_example :
    (t : Sys ℕ) × (opened : List ℕ) × (result : Option Error) × (open_bindings service platform 502
        ctx log
        (0 ∷ 1 ∷ [])
        state
      ≡ some (t, opened, result))
    × IsOpening service platform 502 ctx log (0 ∷ 1 ∷ []) [] state t opened result
open_bindings_ends_example =
    open_bindings_ends service platform 501 ctx log platform-IsTimely_at (omega arith) (0 ∷ 1 ∷ [])
      state (refl, (refl, tt))

run_shutdown_ends_example :
    (t : Sys ℕ) × (errs : Option (List Error)) × (run_shutdown service platform ctx log 3
        (some before_shutdown_phase)
        (0 ∷ 1 ∷ [])
        state
      ≡ some (t, errs))
    × IsShutDown service platform service-IsCivil platform-IsCivilServer ctx log
        (some before_shutdown_phase)
        (0 ∷ 1 ∷ [])
        state
        t
    × IsReported service platform service-IsCivil platform-IsCivilServer ctx log state (t, errs)
run_shutdown_ends_example =
    run_shutdown_ends service platform service-IsCivil platform-IsCivilServer ctx log
      before_shutdown_phase (λ w. 0) (λ fn s. omega arith) 3 (0 ∷ 1 ∷ []) state (refl, (refl, tt))
      refl (omega arith)

-- An interface that is down, and one with an address that does not parse and a private one.
abbrev interfaces : List Interface
interfaces =
    record { is_up = false; is_loopback = false; addrs = ok (some (v4 10 0 0 1) ∷ []) }
    ∷ record { is_up = true; is_loopback = false; addrs = ok (none ∷ some (v4 10 0 0 2) ∷ []) }
    ∷ []

abbrev networked : Platform ℕ
networked = record platform {
  interfaces = λ w. ok interfaces;
  is_private = λ ip. true;
  ip_string = λ ip. "10.0.0.2";
}

auto_detect_address-IsFirst_example :
    (o : Option String) × (auto_detect_address networked 4 0 ≡ detected networked 4 o)
    × IsFirst networked 4 (usable networked 4 interfaces) o
auto_detect_address-IsFirst_example = auto_detect_address-IsFirst networked 4 0 interfaces refl

-- A loop whose server has been shut down, and that has not logged what it returned yet.
abbrev closed : Option Error
closed = some (external 9)

abbrev closing : Loop
closing = record (started "http" false) { stage = observed true closed; shut = true }

abbrev shutting : Daemons ℕ
shutting = record { sys = set_flag state; loops = closing ∷ [] }

shutting_reached : Reach platform log (record { sys = state; loops = [] }) shutting
shutting_reached =
    next
      (next
        (next (next (next here (starts _ "http" false refl)) (flags _))
          (shuts _ 0 (started "http" false) refl refl refl))
        (returns _ 0 (record (started "http" false) { shut = true }) closed refl refl
          (λ _ _. refl)))
      (observes _ 0 (record (started "http" false) { stage = returned closed; shut = true }) closed
        refl refl)

abbrev settled : Daemons ℕ
settled =
    with_loop platform log 0 (record closing { stage = finished })
      (record shutting { sys = serve_returned platform log true "http" closed (set_flag state) })

Reach-quiet_example :
    (serve_returned platform log true "http" closed (set_flag state) ≡ set_flag state)
    × (settled.sys.shutdown_flag ≡ true)
    × (reported platform log settled ≡ reported platform log shutting)
Reach-quiet_example =
    Reach-quiet platform log state shutting settled 0 closing true (external 9) shutting_reached
      refl refl refl refl (next here (logs shutting 0 closing true closed refl refl))
