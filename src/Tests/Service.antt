-- ===== src/Tests/Service.antt =====
-- A service and a platform for the tests. The world is a clock, in nanoseconds.
use scaffold_go.Base.{ℕ, ◌+◌, refl, ap, true, false, none, some, [], ◌∷◌, ltb, if◌then◌else◌, arith}
use scaffold_go.Go.{returns, panics, sprintf, external, Logger, given, pos}
use scaffold_go.Context.{Context, caller}
use scaffold_go.Net.{v4, Addr, tcp_addr}
use scaffold_go.ErrorHandler.{default_error_handler}
use scaffold_go.Binding.{Binding}
use scaffold_go.System.{Cleaner, BindingStore, test_bindings, Sys, Daemon}
use scaffold_go.System.Rely.{Rely, Steady-refl, IsCivil}
use scaffold_go.Platform.{Platform, ok, by_context}
use scaffold_go.Lifecycle.Options.{DaemonConfig}
use scaffold_go.Lifecycle.Start.{Addresses, zero_options, daemon_config}
use scaffold_go.Lifecycle.Probe.{probe_pause}
use scaffold_go.Lifecycle.Shutdown.Order.{IsCivilServer}
use scaffold_go.Lifecycle.Probe.Ends.{IsTimely}

-- OnStop fails, the callback 2 panics, the clean-up function 1 fails.
abbrev pub service : Daemon ℕ
service = record {
  on_start = λ ctx s. (s, returns none);
  on_stop = λ ctx s. (s, returns (some (external 7)));
  callback = λ n ctx s. (s, (if ltb n 2 then returns tt else panics (sprintf "callback" [])));
  error_handler = λ n. default_error_handler (pos 500);
  clean_function = λ n ctx s. (s, returns (if ltb n 2 then some (external n) else none));
}

-- Listening succeeds, dialling from the twentieth millisecond on; a server's shutdown fails.
abbrev pub platform : Platform ℕ
platform = record {
  parse_ip = λ text. none;
  is_loopback_ip = λ ip. false;
  is_link_local_unicast = λ ip. false;
  is_private = λ ip. false;
  ip_string = λ ip. "";
  interfaces = λ w. ok [];
  addr_string = λ addr. "";
  is_server_closed = λ e. true;
  listen = λ addr w. (w, ok (tcp_addr (v4 127 0 0 1) (pos 8080)));
  dial = λ addr w. (w, (if ltb w 20000000 then some (external 1) else none));
  ctx_err = λ ctx w. none;
  now = λ w. w;
  sleep = λ ctx w. (w + probe_pause, none);
  server_shutdown = λ r ctx s. (s, returns (some (external r)));
  await_stop = λ ctx s. (s, by_context);
}

-- A platform that accepts at once, and whose context ends when it listens a second time.
abbrev pub ending_platform : Platform ℕ
ending_platform = record platform {
  listen = λ addr w. (w + 1, ok (tcp_addr (v4 127 0 0 1) (pos 8080)));
  dial = λ addr w. (w, none);
  ctx_err = λ ctx w. if ltb w 2 then none else some (external 3);
}

kept : (s : Sys ℕ) → Rely s s
kept s = record { steady = Steady-refl s; trace_kept = refl }

pub service-IsCivil : IsCivil service
service-IsCivil = record {
  on_start_rely = λ ctx s. kept s;
  on_stop_rely = λ ctx s. kept s;
  callback_rely = λ n ctx s. kept s;
  clean_rely = λ n ctx s. kept s;
}

pub platform-IsCivilServer : IsCivilServer platform
platform-IsCivilServer r ctx s = kept s

abbrev pub ctx : Context
ctx = caller 0

abbrev pub address : Addr
address = tcp_addr (v4 127 0 0 1) (pos 8080)

pub platform-IsTimely_at : (addr : Addr) → IsTimely platform ctx addr
platform-IsTimely_at addr = record {
  dial_forward = λ w. omega arith;
  sleep_lasts = λ v u slept. omega (arith, ap (λ x. x.0) slept);
}

pub platform-IsTimely : IsTimely platform ctx address
platform-IsTimely = platform-IsTimely_at address

abbrev pub log : Logger
log = given 0

-- A binding that has not been configured.
abbrev pub plain : Binding
plain = record {
  name = "http";
  listen_addr = "127.0.0.1:0";
  mws = [];
  rpc_handlers = [];
  mux = none;
  err_handlers = [];
  tls = none;
  read_to = pos 0;
  write_to = pos 0;
  idle_to = pos 0;
  serve_func = none;
  final_handler = none;
  addr = none;
  srv = none;
}

abbrev pub store : BindingStore
store = record {
  kind = test_bindings;
  order = "http" ∷ "raw" ∷ [];
  by_name = ("raw", 1) ∷ ("http", 0) ∷ [];
  heap = plain ∷ record plain { name = "raw"; serve_func = some 4 } ∷ [];
}

abbrev pub idle_cleaner : Cleaner
idle_cleaner = record { log = log; stack = 1 ∷ 2 ∷ []; running = false; done = false }

-- Two bindings, two callbacks of each phase, two clean-up functions.
abbrev pub state : Sys ℕ
state = record {
  bindings = store;
  cleaner = idle_cleaner;
  on_listen_ready = 1 ∷ 2 ∷ [];
  before_shutdown = 2 ∷ 1 ∷ [];
  shutdown_flag = false;
  trace = [];
  world = 0;
}

abbrev pub configuration : DaemonConfig
configuration =
    daemon_config zero_options log
      (record { bind_addr = ""; bind_source = ""; adv_addr = ""; adv_source = "" })

abbrev pub addresses : Addresses
addresses = record {
  bind_addr = "0.0.0.0";
  bind_source = "default";
  adv_addr = "10.0.0.1";
  adv_source = "auto";
}
