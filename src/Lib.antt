-- ===== src/Lib.antt =====
-- Verification of scaffold.go, a library that runs the lifecycle of a Go service: it opens the
-- service's listeners, runs its callbacks, and shuts everything down in order.
--
-- The parts, and the file that models each:
-- - Go: what the code takes from the language and from log/slog, errors and time: panics, errors,
--   loggers, durations. Base has the shared list functions, Boolean tests and lemmas.
-- - Context: context.go, with enrichCtx and buildShutdownCtx of scaffold.go.
-- - Net: the addresses of package net, and translateDialAddr of port_wait.go.
-- - Http: requests, response writers (panicTrackingWriter of middleware.go, responseWriter of
--   prometheus/writer.go) and handlers.
-- - Binding: the setters of binding.go; Binding.Dispatch: its buildHandler and resolveErrorHandler,
--   and newHTTPServer of http_wire.go.
-- - ErrorHandler: error_handler.go. Middleware: PanicRecovery of middleware.go;
--   Middleware.Written has what a handler behind it calls on its writer, Middleware.Exposed the
--   registered error handler, and Middleware.Stack a binding with it and HTTPMetrics. Handlers: handlers.go.
-- - Config: the three providers, Env of config.go, Map of config_map.go and File of config_file.go.
--   Provider is the interface ConfigProvider with what it promises; Parse has the conversions and
--   errors of config.go; Strconv and Filepath are what they take from those packages.
-- - Metrics: prometheus/metrics.go. Collectors is collectorsFor; Measure is HTTPMetrics.
-- - System: the state of one daemon, and the service as a parameter. Bindings and Cleaner:
--   bindings.go and cleaner.go; Cleaner.Concurrent is calls of a cleaner as they interleave. Api: a
--   service as a program over the exported functions, and whole runs of it.
-- - Platform: the network, the clock and the environment, as a parameter. Network: network.go.
-- - Lifecycle: scaffold.go and port_wait.go. Callbacks is AddOnListenReady, AddBeforeShutdown
--   and runCallbacks; Probe is waitForListener; Open is openBindings and runBindingServeLoop;
--   Loops has the serve loops beside the rest; Shutdown is runShutdown, shutdownBinding and
--   callOnStop; Options has the resolve functions; Instance is Stop and Addr; Start and Serve
--   are the functions of those names. Run has the stages of a run, which both share;
--   Serve.Whole and Start.Whole are about every path from the options on.
-- - Tests: concrete runs.
--
-- How the parts meet. `Sys` is the whole state: the store of bindings, the cleaner, the two lists of
-- callbacks, the shutdown flag, and a trace of what has happened, log records and calls of other
-- code. A `*Binding` is an index into the heap of the store; a function value of the service (a
-- callback, a clean-up function, an error handler, a serve function, a TLS config) is a number. The
-- code of the service is the record `Daemon`, whose functions take the state to another one and
-- return or panic; the standard library is the record `Platform`. The theorems on the lifecycle
-- assume that both keep within `Rely` (System.Rely): they do not touch the trace, the shutdown flag,
-- the cleaner's flags or the servers, and register callbacks and clean-up functions at the end of
-- their lists only. These are the steps that the exported API allows to a service that does not run
-- the cleaner itself; Api has such services.
--
-- Fuel. The loop of runCallbacks reads the length of its list again on each round, and a callback
-- may register further ones; its fuel is enough when it exceeds the callbacks registered and those
-- that may still be. The loop of waitForListener has enough when it exceeds the pauses that fit into
-- the timeout by one. Without fuel the result is `none`. The clean-up, the setters, the opening and
-- the scan of the interfaces recur on their lists.
--
-- A mutex guards single steps, so each method under one is one step. A text that the code formats is
-- kept as its format with its arguments. Numbers of the lifecycle are not bounded: it computes only a
-- deadline.
-- The serve loops are goroutines; Lifecycle.Loops has their steps, the end of the serve function, the
-- reading of the flag and the log record, in any order with the steps of the lifecycle that concern
-- them. The paths of Start and Serve leave their records out of the trace. Concurrent calls of
-- collectorsFor share a sync.Map without a mutex: they are modelled as any interleaving of their steps.
--
-- The separator of a file path is `/`. strconv.ParseFloat, time.ParseDuration and the file system are
-- parameters; strconv.Atoi, ParseInt and ParseBool and filepath.Clean and Join are modelled. The
-- integers that a provider returns are those of 64 bits.
--
-- Not modelled: the duration that the metrics observe and the options of their collectors, the
-- registration of signals, and the ignored arguments of Serve. A middleware that is nil, or panics when
-- it is applied to a handler, unwinds out of Start or Serve; this end is left out, and so are a service
-- that itself calls Cleaner.Clean, or Stop from one of its own functions, and one that assigns the fields
-- of DaemonConfig. A handler does not go around a wrapper of its response writer by Unwrap. A provider is a value that the
-- lifecycle only passes on.
mod Base
pub mod Go
pub mod Context
pub mod Net
pub mod Http
pub mod Binding
pub mod ErrorHandler
pub mod Middleware
pub mod Handlers
pub mod Metrics
pub mod Config
pub mod System
pub mod Cleaner
pub mod Bindings
pub mod Platform
pub mod Api
pub mod Network
pub mod Lifecycle
mod Tests
