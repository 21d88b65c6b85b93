-- ===== src/Middleware.antt =====
-- PanicRecovery of middleware.go.
pub mod Exposed
pub mod Stack
pub mod Written
use scaffold_go.Base.{ℕ, Bool, false, Option, none, some, List, [], ◌∷◌, ◌++◌, if◌then◌else◌}
use scaffold_go.Go.{
  Outcome, returns, panics, Text, sprintf, Logger, LogRecord, Level, text_attr, panic_attr,
  stack_attr,
}
use scaffold_go.Http.{
  Request, Writer, server_writer, panic_tracking_writer, response_writer, Exchange, Handler,
  MiddlewareFunc,
}
use scaffold_go.Binding.{error_status_500}
use scaffold_go.Binding.Dispatch.{or_default}
use scaffold_go.ErrorHandler.{registered_error_handler}

-- The tracking writer's state and the writer under it. The handler was given the tracking writer,
-- and cannot put another in its place.
abbrev pub tracked : Writer → Bool × Writer
tracked (panic_tracking_writer written w) = (written, w)
tracked (server_writer r) = (false, server_writer r)
tracked (response_writer status hijacked w) = (false, response_writer status hijacked w)

abbrev pub panic_record : Logger → Request → Text → LogRecord
panic_record log r v = record {
  logger = log;
  level = Level.error;
  text = "panic recovered";
  attrs = text_attr "method" r.method ∷ text_attr "path" r.path ∷ panic_attr v ∷ stack_attr ∷ [];
}

-- `serve` runs a handler of the service, which the registered error handlers refer to.
module _ (serve : ℕ → Handler) where
  -- The deferred function, after the wrapped handler has ended.
  abbrev pub recovered :
      Logger → Bool × Writer → Exchange × Outcome (Unit {0}) → Exchange × Outcome (Unit {0})
  recovered log (written, w) (y, returns _) = (record y { writer = w }, returns tt)
  recovered log (written, w) (y, panics v) =
      let z = record y { writer = w; log = y.log ++ panic_record log y.request v ∷ [] } in
      if written
      then (z, returns tt)
      else or_default serve (registered_error_handler y.request.context error_status_500)
          error_status_500 z

  -- The handler that the middleware returns.
  unfoldable pub recovering : Logger → Handler → Handler
  recovering log next x =
      let (y, end) = next (record x { writer = panic_tracking_writer false x.writer }) in
      recovered log (tracked y.writer) (y, end)

  unfoldable pub panic_recovery : Option Logger → Outcome MiddlewareFunc
  unfolding recovering
  panic_recovery none = panics (sprintf "scaffold: PanicRecovery called with nil *slog.Logger" [])
  panic_recovery (some log) = returns (recovering log)
