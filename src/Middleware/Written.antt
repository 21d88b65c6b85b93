-- ===== src/Middleware/Written.antt =====
-- The calls that a handler makes on its response writer behind PanicRecovery, and the reply that
-- follows them (middleware.go).
use scaffold_go.Base.{ℕ, ◌≡◌, refl, ap, Bool, true, false, List, [], ◌∷◌, ◌++◌, if◌then◌else◌}
use scaffold_go.Go.{returns, panics, Text, Logger}
use scaffold_go.Http.{
  Writer, panic_tracking_writer, Exchange, Handler, write_header, write, flush, set_header,
}
use scaffold_go.ErrorHandler.{registered_error_handler}
use scaffold_go.Binding.{error_status_500}
use scaffold_go.Binding.Dispatch.{or_default}
use scaffold_go.Middleware.{panic_record, tracked, recovered, recovering}
use scaffold_go.Metrics.Measure.Label.{
  WriterCall, writes_header, writes, flushes, sets_header, call_writer, call_writer_each, making,
}

-- Whether one of the calls writes a header, an informational one included, or a body.
abbrev pub has_written : List WriterCall → Bool
has_written [] = false
has_written (writes_header code ∷ cs) = true
has_written (writes b ∷ cs) = true
has_written (flushes ∷ cs) = has_written cs
has_written (sets_header key v ∷ cs) = has_written cs

call_writer_each-marked :
    (cs : List WriterCall) (w : Writer)
    → call_writer_each cs (panic_tracking_writer true w)
      ≡ panic_tracking_writer true (call_writer_each cs w)
unfolding call_writer_each call_writer write_header write flush set_header
call_writer_each-marked [] w = refl
call_writer_each-marked (writes_header code ∷ cs) w =
    call_writer_each-marked cs (write_header code w)
call_writer_each-marked (writes b ∷ cs) w = call_writer_each-marked cs (write b w)
call_writer_each-marked (flushes ∷ cs) w = call_writer_each-marked cs (flush w)
call_writer_each-marked (sets_header key v ∷ cs) w = call_writer_each-marked cs (set_header key v w)

-- The tracking writer hands every call on, and knows whether one of them has written.
pub call_writer_each-tracked :
    (cs : List WriterCall) (w : Writer)
    → call_writer_each cs (panic_tracking_writer false w)
      ≡ panic_tracking_writer (has_written cs) (call_writer_each cs w)
unfolding call_writer_each call_writer write_header write flush set_header
call_writer_each-tracked [] w = refl
call_writer_each-tracked (writes_header code ∷ cs) w =
    call_writer_each-marked cs (write_header code w)
call_writer_each-tracked (writes b ∷ cs) w = call_writer_each-marked cs (write b w)
call_writer_each-tracked (flushes ∷ cs) w = call_writer_each-tracked cs (flush w)
call_writer_each-tracked (sets_header key v ∷ cs) w =
    call_writer_each-tracked cs (set_header key v w)

-- A handler that makes these calls on its writer, and panics.
abbrev pub making_and_panicking : List WriterCall → Text → Handler
making_and_panicking cs v x = (record x { writer = call_writer_each cs x.writer }, panics v)

module _ (serve : ℕ → Handler) (log : Logger) where
  -- Of a handler behind PanicRecovery that calls no method of its writer but WriteHeader, Write, Flush and
  -- the Set of its header, and does not go around the writer by Unwrap: each call reaches the writer under
  -- it unchanged, in order. When the handler returns, that is all. When it panics, the panic is logged once
  -- and ends there; if WriteHeader, also with an informational code, or Write was called, the response is
  -- left at that, and otherwise, also after a flush, the handler for the status 500 that the request's
  -- context carries, or the built-in one, answers on the same writer.
  pub recovering-written :
      (cs : List WriterCall) (v : Text) (x : Exchange)
      → let w = call_writer_each cs x.writer in
        let z = record x { writer = w; log = x.log ++ panic_record log x.request v ∷ [] } in
        (recovering serve log (making cs) x ≡ (record x { writer = w }, returns tt))
        × (recovering serve log (making_and_panicking cs v) x ≡ (
            if has_written cs
            then (z, returns tt)
            else or_default serve
                (registered_error_handler x.request.context error_status_500)
                error_status_500
                z))
  unfolding recovering
  recovering-written cs v x =
      let reached = call_writer_each-tracked cs x.writer in
      (
        ap (λ u. recovered serve log (tracked u) (record x { writer = u }, returns tt)) reached,
        ap (λ u. recovered serve log (tracked u) (record x { writer = u }, panics v)) reached,
      )
