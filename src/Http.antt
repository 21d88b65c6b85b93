-- ===== src/Http.antt =====
-- The values of net/http that the packages handle: requests, response writers with scaffold's own
-- wrappers (panicTrackingWriter of middleware.go, responseWriter of prometheus/writer.go), handlers
-- and muxes.
use scaffold_go.Base.{
  ℕ, zero, suc, String, Bool, true, List, [], ◌∷◌, ◌++◌, Option, none, some, ltb, not, ◌&&◌, ◌==◌,
  if◌then◌else◌,
}
use scaffold_go.Go.{Text, Outcome, LogRecord, Error, message, sprintf}
use scaffold_go.Context.{Context}

pub record Request : Type 0 where
  pub method : String
  pub path : String
  pub pattern : String
  pub context : Context

-- A piece of a response body: the bytes of a text, or of a JSON object with text fields.
pub data Body : Type 0 where
  bytes : Text → Body
  json : List (String × Text) → Body

-- The server's side of a response: `status` is 0 until the header has gone out.
pub record Response : Type 0 where
  pub status : ℕ
  pub header : List (String × String)
  pub body : List Body
  pub flushes : ℕ

-- An `http.ResponseWriter`: the server's, or one of the wrappers around another writer. The
-- wrappers keep `written`, and `status` with `hijacked`.
pub data Writer : Type 0 where
  server_writer : Response → Writer
  panic_tracking_writer : Bool → Writer → Writer
  response_writer : ℕ → Bool → Writer → Writer

-- The labels of a metric, and one update of a collector of a registered set.
pub record Labels : Type 0 where
  pub method : String
  pub pattern : String
  pub status : ℕ

pub data Sample : Type 0 where
  counted : ℕ → Labels → Sample
  observed : ℕ → Labels → Sample

-- What a handler works on: the request, the writer, the log, and the updates of the metrics.
pub record Exchange : Type 0 where
  pub request : Request
  pub writer : Writer
  pub log : List LogRecord
  pub samples : List Sample

-- An `http.Handler`, run to its return or panic.
abbrev pub Handler : Type 0
Handler = Exchange → Exchange × Outcome (Unit {0})

-- A middleware, which returns a handler for each one that it is given: neither nil, nor one that panics
-- when it is applied.
abbrev pub MiddlewareFunc : Type 0
MiddlewareFunc = Handler → Handler

-- An `RPCHandler`, which says whether it has served the request.
abbrev pub RpcHandler : Type 0
RpcHandler = Exchange → Exchange × Outcome Bool

-- A fallback mux. Of an `*http.ServeMux` the pattern that `Handler(r)` reports is known too.
pub data Mux : Type 0 where
  serve_mux : (Request → String) → Handler → Mux
  other_mux : Handler → Mux

-- The codes that announce a response to come: 1xx, but not 101.
abbrev pub is_informational : ℕ → Bool
is_informational code = not (ltb code 100) && ltb code 200 && not (code == 101)

-- The server sends the first header that is written, and drops later ones. An informational code is
-- sent at once and leaves the header to come. The codes are those of net/http, from 100 to 999: it
-- panics on others.
abbrev pub respond_once : ℕ → Response → ℕ → Response
respond_once code r zero = if is_informational code then r else record r { status = code }
respond_once code r (suc s) = r

unfoldable pub respond : ℕ → Response → Response
respond code r = respond_once code r r.status

-- A body with no header before it sends the status 200.
unfoldable pub append_body : Body → Response → Response
unfolding respond
append_body b r = let sent = respond 200 r in record sent { body = sent.body ++ b ∷ [] }

unfoldable pub write_header : ℕ → Writer → Writer
unfolding respond
write_header code (server_writer r) = server_writer (respond code r)
write_header code (panic_tracking_writer written w) =
    panic_tracking_writer true (write_header code w)
write_header code (response_writer status hijacked w) =
    let inner = write_header code w in
    if hijacked then response_writer status hijacked w else response_writer code hijacked inner

-- `if w.status == 0 { w.status = http.StatusOK }`
abbrev pub or_ok : ℕ → ℕ
or_ok zero = 200
or_ok (suc s) = suc s

unfoldable pub write : Body → Writer → Writer
unfolding append_body
write b (server_writer r) = server_writer (append_body b r)
write b (panic_tracking_writer written w) = panic_tracking_writer true (write b w)
write b (response_writer status hijacked w) =
    response_writer (if hijacked then status else or_ok status) hijacked (write b w)

-- A header that is set after the server has sent the header does not reach the client.
unfoldable pub header_set : String → String → Response → Response
header_set key v r = if r.status == 0 then record r { header = (key, v) ∷ r.header } else r

-- `w.Header().Set(key, v)` reaches the server's header through every wrapper.
unfoldable pub set_header : String → String → Writer → Writer
unfolding header_set
set_header key v (server_writer r) = server_writer (header_set key v r)
set_header key v (panic_tracking_writer written w) =
    panic_tracking_writer written (set_header key v w)
set_header key v (response_writer status hijacked w) =
    response_writer status hijacked (set_header key v w)

-- The server's writer implements http.Flusher, and so does each wrapper. The server sends a header
-- with the status 200 when there is none yet.
unfoldable pub flush : Writer → Writer
unfolding respond
flush (server_writer r) = server_writer (record (respond 200 r) { flushes = suc r.flushes })
flush (panic_tracking_writer written w) = panic_tracking_writer written (flush w)
flush (response_writer status hijacked w) = response_writer status hijacked (flush w)

-- What the client has been sent.
abbrev pub response : Writer → Response
response (server_writer r) = r
response (panic_tracking_writer written w) = response w
response (response_writer status hijacked w) = response w

-- How a call of Hijack ends: the writer has no such method, or it returns an error or nil.
pub data Hijacked : Type 0 where
  no_hijacker : Hijacked
  hijack_ends : Option Error → Hijacked

-- `status == 0` at the time of the hijack becomes 101.
abbrev switching : ℕ → ℕ
switching zero = 101
switching (suc s) = suc s

abbrev after_hijack : ℕ → Bool → Writer × Hijacked → Writer × Hijacked
after_hijack status hijacked (w, no_hijacker) = (
  response_writer status hijacked w,
  hijack_ends (
      some (
        message
          (sprintf "sprometheus: underlying ResponseWriter does not implement http.Hijacker" []))),
)
after_hijack status hijacked (w, hijack_ends (some e)) =
    (response_writer status hijacked w, hijack_ends (some e))
after_hijack status hijacked (w, hijack_ends none) =
    (response_writer (switching status) true w, hijack_ends none)

-- `server` is the server's own Hijack. The tracking writer has none: it embeds a plain
-- http.ResponseWriter.
unfoldable pub hijack : (Response → Hijacked) → Writer → Writer × Hijacked
hijack server (server_writer r) = (server_writer r, server r)
hijack server (panic_tracking_writer written w) = (panic_tracking_writer written w, no_hijacker)
hijack server (response_writer status hijacked w) = after_hijack status hijacked (hijack server w)

-- The wrappers' Unwrap method.
abbrev pub unwrap : Writer → Option Writer
unwrap (server_writer r) = none
unwrap (panic_tracking_writer written w) = some w
unwrap (response_writer status hijacked w) = some w
