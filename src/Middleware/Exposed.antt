-- ===== src/Middleware/Exposed.antt =====
-- The error handler that answers a panic, from its registration on the binding to the reply
-- (middleware.go, binding.go, error_handler.go).
use scaffold_go.Base.{ℕ, List}
use scaffold_go.Go.{Outcome, panics, Text, Logger}
use scaffold_go.Context.{ErrorHandlers}
use scaffold_go.Http.{Request, Exchange, Handler, RpcHandler}
use scaffold_go.ErrorHandler.{with_error_handlers}
use scaffold_go.Binding.{Binding}
use scaffold_go.Metrics.Measure.Label.{WriterCall, call_writer_each}

-- An RPC handler that makes these calls on its writer, and panics.
abbrev pub rpc_panicking : List WriterCall → Text → RpcHandler
rpc_panicking cs v x = (record x { writer = call_writer_each cs x.writer }, panics v)

-- The request as a binding with these error handlers passes it on.
abbrev pub exposed : ErrorHandlers → Request → Request
exposed m r = record r { context = with_error_handlers r.context m }

module _ (serve : ℕ → Handler) (log : Logger) where
  -- The caller has its own request, which WithContext has not changed.
  abbrev give_back : Request → Exchange × Outcome (Unit {0}) → Exchange × Outcome (Unit {0})
  give_back r (y, end) = (record y { request = r }, end)
