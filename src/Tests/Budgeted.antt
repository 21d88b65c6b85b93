-- ===== src/Tests/Budgeted.antt =====
-- A service that registers callbacks while it can pay for them, on a platform with a clock.
use scaffold_go.Base.{
  ℕ, zero, suc, ◌+◌, ◌≤◌, ◌≡◌, refl, ap, Option, none, some, List, [], ◌∷◌, length, ltb,
  if◌then◌else◌, true, false, arith,
}
use scaffold_go.Go.{returns, panics, sprintf, external, pos, Error}
use scaffold_go.Net.{v4, Addr, tcp_addr}
use scaffold_go.Context.{Context, caller}
use scaffold_go.Binding.Setters.{serves_func}
use scaffold_go.ErrorHandler.{default_error_handler}
use scaffold_go.System.{Sys}
use scaffold_go.System.Rely.{Steady-refl}
use scaffold_go.Platform.{Platform, ok, by_context}
use scaffold_go.Lifecycle.Probe.{probe_pause}
use scaffold_go.Lifecycle.Probe.Ends.{IsTimely}
use scaffold_go.Lifecycle.Shutdown.Order.{IsCivilServer}
use scaffold_go.Lifecycle.Options.{Options}
use scaffold_go.Lifecycle.Run.{IsWellBehaved}
use scaffold_go.Lifecycle.Start.{Started, zero_options, start}
use scaffold_go.Lifecycle.Start.Whole.{IsStartDone}
use scaffold_go.Lifecycle.Serve.{Served, serve}
use scaffold_go.Lifecycle.Serve.Whole.{IsServeDone}
use scaffold_go.Api.{
  ApiCall, Script, adds_binding, configures_binding, adds_clean_up, adds_on_listen_ready,
  adds_before_shutdown,
}
use scaffold_go.Api.Cost.{registrations, IsPaid, IsFree}
use scaffold_go.Api.Whole.{service, serve_scripted_total, start_scripted_total}

-- The time, in nanoseconds, and the callbacks that the service may still register.
record Purse : Type 0 where
  clock : ℕ
  left : ℕ

-- OnStart adds two bindings, of which the first gets a serve function, and a callback if it can.
abbrev first_calls : ℕ → ℕ → List ApiCall × ℕ
first_calls at zero = (
  adds_binding "http" ":80" ∷ configures_binding at (serves_func (some 4)) ∷ adds_clean_up 1 ∷ [],
  zero,
)
first_calls at (suc n) = (
  adds_binding "http" ":80"
      ∷ adds_binding "raw" ":81"
      ∷ configures_binding at (serves_func (some 4))
      ∷ adds_on_listen_ready 1
      ∷ [],
  n,
)

-- Every callback registers another one if it can, and panics.
abbrev later_calls : ℕ → List ApiCall × ℕ
later_calls zero = ([], zero)
later_calls (suc n) = (adds_before_shutdown 2 ∷ [], n)

abbrev starting : Script Purse (Option Error)
starting ctx s =
    let (calls, n) = first_calls (length s.bindings.heap) s.world.left in
    (calls, record { clock = s.world.clock; left = n }, returns none)

abbrev called : ℕ → Script Purse (Unit {0})
called fn ctx s =
    let (calls, n) = later_calls s.world.left in
    (calls, record { clock = s.world.clock; left = n }, panics (sprintf "callback" []))

abbrev stopping : Script Purse (Option Error)
stopping ctx s = ([], s.world, returns (some (external 7)))

abbrev cleaning : ℕ → Script Purse (Option Error)
cleaning fn ctx s = (adds_clean_up fn ∷ [], s.world, returns none)

abbrev credit : Purse → ℕ
credit w = w.left

first_calls-paid : (at n : ℕ) → registrations (first_calls at n).0 + (first_calls at n).1 ≤ n
first_calls-paid at zero = omega arith
first_calls-paid at (suc n) = omega arith

later_calls-paid : (n : ℕ) → registrations (later_calls n).0 + (later_calls n).1 ≤ n
later_calls-paid zero = omega arith
later_calls-paid (suc n) = omega arith

starting-IsPaid : IsPaid credit starting
starting-IsPaid ctx s = first_calls-paid (length s.bindings.heap) s.world.left

called-IsPaid : (fn : ℕ) → IsPaid credit (called fn)
called-IsPaid fn ctx s = later_calls-paid s.world.left

abbrev network : Platform Purse
network = record {
  parse_ip = λ text. some (v4 10 0 0 1);
  is_loopback_ip = λ ip. false;
  is_link_local_unicast = λ ip. false;
  is_private = λ ip. true;
  ip_string = λ ip. "10.0.0.1";
  interfaces = λ w. ok [];
  addr_string = λ addr. "";
  is_server_closed = λ e. true;
  listen = λ addr w. (w, ok (tcp_addr (v4 10 0 0 1) (pos 8080)));
  dial = λ addr w. (w, (if ltb w.clock 20000000 then some (external 1) else none));
  ctx_err = λ ctx w. none;
  now = λ w. w.clock;
  sleep = λ ctx w. (record { clock = w.clock + probe_pause; left = w.left }, none);
  server_shutdown = λ r ctx s. (s, returns (some (external r)));
  await_stop = λ ctx s. (s, by_context);
}

network-IsCivilServer : IsCivilServer network
network-IsCivilServer r ctx s = record { steady = Steady-refl s; trace_kept = refl }

network-IsFree : IsFree credit network
network-IsFree = record {
  listen_free = λ a w. omega arith;
  dial_free = λ a w. omega arith;
  sleep_free = λ ctx w. omega arith;
}

network-IsWellBehaved : IsWellBehaved credit (λ s. (network.await_stop (caller 0) s).0)
network-IsWellBehaved = record {
  spends = λ s. omega arith;
  keeps = λ s. record { steady = Steady-refl s; trace_kept = refl };
}

network-IsTimely : (c : Context) (addr : Addr) → IsTimely network c addr
network-IsTimely c addr = record {
  dial_forward = λ w. omega arith;
  sleep_lasts = λ v u slept. omega (arith, ap (λ x. x.0.clock) slept);
}

abbrev options : Options
options = record zero_options { bind_address = "10.0.0.1"; on_start_timeout = pos 5 }

serve_scripted_total_example :
    (t : Sys Purse) × (r : Served) × (serve
        (service starting stopping called (λ n. default_error_handler (pos 500)) cleaning)
        network
        502
        (caller 0)
        options
        (record { clock = 0; left = 9 })
      ≡ some (t, r))
    × IsServeDone
        (service starting stopping called (λ n. default_error_handler (pos 500)) cleaning)
        network
        credit
        501
        options
        (caller 0)
        (record { clock = 0; left = 9 })
        t
        r
serve_scripted_total_example =
    serve_scripted_total starting stopping called (λ n. default_error_handler (pos 500)) cleaning
      network network-IsCivilServer credit starting-IsPaid called-IsPaid network-IsFree 501 options
      (caller 0) network-IsWellBehaved network-IsTimely (omega arith) tt
      (record { clock = 0; left = 9 }) (omega arith)

start_scripted_total_example :
    (t : Sys Purse) × (r : Started) × (start
        (service starting stopping called (λ n. default_error_handler (pos 500)) cleaning)
        network
        502
        (caller 0)
        none
        (record { clock = 0; left = 9 })
      ≡ some (t, r))
    × IsStartDone
        (service starting stopping called (λ n. default_error_handler (pos 500)) cleaning)
        network
        credit
        501
        (λ s. s)
        (caller 1)
        zero_options
        (caller 0)
        (record { clock = 0; left = 9 })
        t
        r
start_scripted_total_example =
    start_scripted_total starting stopping called (λ n. default_error_handler (pos 500)) cleaning
      network network-IsCivilServer credit starting-IsPaid called-IsPaid network-IsFree 501 (λ s. s)
      network-IsWellBehaved (caller 1) (caller 0) network-IsTimely (omega arith) none tt
      (record { clock = 0; left = 9 }) (omega arith)
