-- ===== src/Platform.antt =====
-- What the lifecycle calls that is not in the repository: the network, the clock and the process's
-- environment. Times are nanoseconds.
use scaffold_go.Base.{ℕ, String, Bool, Option, List}
use scaffold_go.Go.{Outcome, Error}
use scaffold_go.Context.{Context}
use scaffold_go.Net.{Ip, Addr, DialAddr}
use scaffold_go.System.{Sys}

-- A Go result `(value, error)`.
pub data Result {ℓ} (A : Type ℓ) : Type ℓ where
  ok : A → Result A
  err : Error → Result A

-- A network interface: its flags, and the addresses that it reports, each parsed as a CIDR, or none
-- where it does not parse.
pub record Interface : Type 0 where
  pub is_up : Bool
  pub is_loopback : Bool
  pub addrs : Result (List (Option Ip))

-- What ends the wait of Serve: a signal, by its name, or the caller's context.
pub data Wake : Type 0 where
  by_signal : String → Wake
  by_context : Wake

pub record Platform (World : Type 0) : Type 0 where
  -- `net.ParseIP`, `ip.IsLoopback`, `ip.IsLinkLocalUnicast`, `ip.IsPrivate`, `ip.String`.
  pub parse_ip : String → Option Ip
  pub is_loopback_ip : Ip → Bool
  pub is_link_local_unicast : Ip → Bool
  pub is_private : Ip → Bool
  pub ip_string : Ip → String
  -- `net.Interfaces`
  pub interfaces : World → Result (List Interface)
  -- `addr.String()` and `errors.Is(err, http.ErrServerClosed)`.
  pub addr_string : Addr → String
  pub is_server_closed : Error → Bool
  -- `net.Listen("tcp", addr)`, which yields the listener's address.
  pub listen : String → World → World × Result Addr
  -- `net.DialTimeout("tcp", addr, 100ms)`: nil when it connects.
  pub dial : DialAddr → World → World × Option Error
  -- `ctx.Err()` and the clock's `Now`.
  pub ctx_err : Context → World → Option Error
  pub now : World → ℕ
  -- The select between `ctx.Done()`, with the context's error, and `clk.After(10ms)`.
  pub sleep : Context → World → World × Option Error
  -- `srv.Shutdown(ctx)` of the binding at a pointer; requests in flight may run the service's code.
  pub server_shutdown : ℕ → Context → Sys World → Sys World × Outcome (Option Error)
  -- The select of Serve, during which the service runs.
  pub await_stop : Context → Sys World → Sys World × Wake
