-- ===== src/System.antt =====
-- The state of one daemon process as the lifecycle sees it: the bindings, the cleaner, the
-- registered callbacks, the shutdown flag, what has happened so far, and the world outside.
pub mod Rely
pub mod Failures
use scaffold_go.Base.{ℕ, String, Bool, Option, List, [], ◌∷◌, ◌++◌}
use scaffold_go.Go.{Outcome, Error, Logger, Level, Attr, LogRecord}
use scaffold_go.Context.{Context}
use scaffold_go.Http.{Handler}
use scaffold_go.Binding.{Binding}

-- cleaner.go's struct. Its functions are known by reference; the last one registered stands last.
pub record Cleaner : Type 0 where
  pub log : Logger
  pub stack : List ℕ
  pub running : Bool
  pub done : Bool

-- Which implementation of the interface `Bindings` is in use.
pub data BindingsKind : Type 0 where
  default_bindings : String → BindingsKind  -- bindAddr
  test_bindings : BindingsKind
  third_party : ℕ → BindingsKind  -- without orderedBindings

-- bindings.go's bindingStore. A `*Binding` is an index into `heap`, which holds the bindings as
-- they were allocated.
pub record BindingStore : Type 0 where
  pub kind : BindingsKind
  pub order : List String
  pub by_name : List (String × ℕ)
  pub heap : List Binding

pub data Phase : Type 0 where
  on_listen_ready_phase before_shutdown_phase : Phase

-- How runBindingServeLoop serves a listener: the service's ServeFunc, TLS or plain HTTP.
pub data ServeMode : Type 0 where
  by_serve_func : ℕ → ServeMode
  by_serve_tls by_serve : ServeMode

-- The calls that scaffold makes into other code.
pub data Call : Type 0 where
  on_start_call : Context → Call
  on_stop_call : Context → Call
  callback_call : Phase → ℕ → Call
  clean_call : ℕ → Call
  listen_call : ℕ → Call
  serve_call : ℕ → ServeMode → Call
  shutdown_call : ℕ → Context → Call

pub data Event : Type 0 where
  logged : LogRecord → Event
  called : Call → Event

-- `trace` grows at its end. `World` is what the code outside keeps for itself.
pub record Sys (World : Type 0) : Type 0 where
  pub bindings : BindingStore
  pub cleaner : Cleaner
  pub on_listen_ready : List ℕ
  pub before_shutdown : List ℕ
  pub shutdown_flag : Bool
  pub trace : List Event
  pub world : World

-- The service's code. It may read and change the whole state, and may panic.
pub record Daemon (World : Type 0) : Type 0 where
  pub on_start : Context → Sys World → Sys World × Outcome (Option Error)
  pub on_stop : Context → Sys World → Sys World × Outcome (Option Error)
  pub callback : ℕ → Context → Sys World → Sys World × Outcome (Unit {0})
  pub error_handler : ℕ → Handler
  pub clean_function : ℕ → Context → Sys World → Sys World × Outcome (Option Error)

module _ {World : Type 0} where
  abbrev pub emit : Event → Sys World → Sys World
  emit e s = record s { trace = s.trace ++ e ∷ [] }

  -- A call into other code, as it is about to be made.
  abbrev pub note : Call → Sys World → Sys World
  note c = emit (called c)

  abbrev pub log_record : Logger → Level → String → List Attr → Sys World → Sys World
  log_record l level text attrs =
      emit (logged (record { logger = l; level = level; text = text; attrs = attrs }))

-- The calls of a trace, without the log.
abbrev pub calls : List Event → List Call
calls [] = []
calls (logged r ∷ es) = calls es
calls (called c ∷ es) = c ∷ calls es
