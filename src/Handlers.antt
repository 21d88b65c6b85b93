-- ===== src/Handlers.antt =====
-- handlers.go: HealthHandler and ReadyHandler. What the service's function answers is a parameter,
-- and so is `json.Marshal` of its payload.
pub mod Replies
use scaffold_go.Base.{String, Bool, true, false, Option, none, some, List, [], ◌∷◌, ◌++◌}
use scaffold_go.Go.{
  Outcome, returns, panics, Error, sprintf, str, Logger, LogRecord, Level, text_attr, error_attr,
}
use scaffold_go.Context.{Context}
use scaffold_go.Http.{Request, Body, bytes, Exchange, Handler, set_header, write_header, write}
use scaffold_go.Platform.{Result, ok, err}

abbrev pub marshal_failed_record : Logger → Request → Error → LogRecord
marshal_failed_record log r e = record {
  logger = log;
  level = Level.error;
  text = "health marshal failed";
  attrs = text_attr "path" r.path ∷ error_attr e ∷ [];
}

abbrev pub marshal_failed_body : Body
marshal_failed_body = bytes (sprintf "{\"error\":\"health marshal failed\"}" [])

abbrev health_marshalled : Logger → Result Body → Handler
health_marshalled log (err e) x = (
  record x {
    log = x.log ++ marshal_failed_record log x.request e ∷ [];
    writer =
        write marshal_failed_body
          (write_header 500 (set_header "Content-Type" "application/json" x.writer));
  },
  returns tt,
)
health_marshalled log (ok body) x = (
  record x {
    writer = write body (write_header 200 (set_header "Content-Type" "application/json" x.writer));
  },
  returns tt,
)

abbrev health_answered {ℓ} : {A : Type ℓ} → (A → Result Body) → Logger → Outcome A → Handler
health_answered marshal log (panics v) x = (x, panics v)
health_answered marshal log (returns payload) x = health_marshalled log (marshal payload) x

-- The handler that HealthHandler returns.
unfoldable pub health_serve {ℓ} :
    {A : Type ℓ} → (A → Result Body) → Logger → (Context → Outcome A) → Handler
health_serve marshal log fn x = health_answered marshal log (fn x.request.context) x

unfoldable pub health_handler {ℓ} :
    {A : Type ℓ} → (A → Result Body) → Option Logger → (Context → Outcome A) → Outcome Handler
health_handler marshal none fn =
    panics (sprintf "scaffold: HealthHandler called with nil *slog.Logger" [])
health_handler marshal (some log) fn = returns (health_serve marshal log fn)

abbrev ready_answered : Outcome (Bool × String) → Handler
ready_answered (panics v) x = (x, panics v)
ready_answered (returns (true, reason)) x =
    (record x { writer = write_header 200 x.writer }, returns tt)
ready_answered (returns (false, reason)) x = (
  record x {
    writer =
        write (bytes (sprintf "%s" (str reason ∷ [])))
          (write_header 503 (set_header "Content-Type" "text/plain; charset=utf-8" x.writer));
  },
  returns tt,
)

unfoldable pub ready_handler : (Context → Outcome (Bool × String)) → Handler
ready_handler fn x = ready_answered (fn x.request.context) x
