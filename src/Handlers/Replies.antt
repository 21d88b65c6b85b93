-- ===== src/Handlers/Replies.antt =====
-- What a client is sent by the health and readiness handlers (handlers.go).
use scaffold_go.Base.{
  String, ℕ, ◌≡◌, refl, sym, append-nil, Bool, true, false, List, [], ◌∷◌, ◌++◌, if◌then◌else◌,
}
use scaffold_go.Go.{Outcome, returns, sprintf, str, Logger, LogRecord}
use scaffold_go.Context.{Context}
use scaffold_go.Http.{
  Request, Body, bytes, server_writer, Exchange, set_header, write_header, write, response,
}
use scaffold_go.Platform.{Result, ok, err}
use scaffold_go.Handlers.{marshal_failed_record, marshal_failed_body, health_serve, ready_handler}

-- A request on which nothing has been sent yet.
abbrev pub fresh : Request → List LogRecord → Exchange
fresh r log = record {
  request = r;
  writer = server_writer (record { status = 0; header = []; body = []; flushes = 0 });
  log = log;
  samples = [];
}

-- On a request to which nothing has been sent, ReadyHandler sends 200 without a body when the
-- function of the service answers that it is ready, and otherwise 503 with the reason as its body.
pub ready_handler-response :
    (fn : Context → Outcome (Bool × String)) (r : Request) (log : List LogRecord) (ready : Bool)
    (reason : String)
    → fn r.context ≡ returns (ready, reason)
    → let (x, end) = ready_handler fn (fresh r log) in
      (end ≡ returns tt)
      × ((response x.writer).status ≡ (if ready then 200 else 503))
      × ((response x.writer).body
          ≡ (if ready then [] else bytes (sprintf "%s" (str reason ∷ [])) ∷ []))
      × (x.log ≡ log)
unfolding ready_handler write_header write set_header
ready_handler-response fn r log true reason answered = rw answered (refl, refl, refl, refl)
ready_handler-response fn r log false reason answered = rw answered (refl, refl, refl, refl)

-- The status, the body and the new log records of the health handler, by the end of the marshalling.
abbrev pub health_status : Result Body → ℕ
health_status (ok body) = 200
health_status (err e) = 500

abbrev pub health_body : Result Body → Body
health_body (ok body) = body
health_body (err e) = marshal_failed_body

abbrev pub health_log : Logger → Request → Result Body → List LogRecord
health_log logger r (ok body) = []
health_log logger r (err e) = marshal_failed_record logger r e ∷ []

-- On a request to which nothing has been sent, the handler of HealthHandler sends 200 with the
-- marshalled answer and logs nothing; when marshalling fails it sends 500 with a fixed body and logs
-- the failure.
pub health_serve-response {ℓ} :
    {A : Type ℓ} (marshal : A → Result Body) (logger : Logger) (fn : Context → Outcome A)
    (r : Request) (log : List LogRecord) (payload : A) (m : Result Body)
    → fn r.context ≡ returns payload
    → marshal payload ≡ m
    → let (x, end) = health_serve marshal logger fn (fresh r log) in
      (end ≡ returns tt)
      × ((response x.writer).status ≡ health_status m)
      × ((response x.writer).body ≡ health_body m ∷ [])
      × (x.log ≡ log ++ health_log logger r m)
unfolding health_serve write_header write set_header
health_serve-response marshal logger fn r log payload (ok body) answered marshalled =
    rw (answered, marshalled) (refl, refl, refl, sym (append-nil log))
health_serve-response marshal logger fn r log payload (err e) answered marshalled =
    rw (answered, marshalled) (refl, refl, refl, refl)
