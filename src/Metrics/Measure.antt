-- ===== src/Metrics/Measure.antt =====
-- The middleware of HTTPMetrics of prometheus/metrics.go. Each set of collectors is known by its
-- number; the observed duration is not modelled.
pub mod Label
use scaffold_go.Base.{
  ℕ, String, Bool, false, Option, none, some, List, [], ◌∷◌, ◌++◌, str_eq, if◌then◌else◌,
}
use scaffold_go.Go.{Outcome, returns, panics}
use scaffold_go.Http.{
  Request, Writer, server_writer, panic_tracking_writer, response_writer, or_ok, Labels, Sample,
  counted, observed, Exchange, Handler, MiddlewareFunc,
}
use scaffold_go.Metrics.Collectors.{
  Stage, Caller, loading, storing, registering, returned, panicked,
}

-- `registerer = prometheus.DefaultRegisterer` for a nil registerer.
abbrev pub default_registerer : ℕ
default_registerer = 0

abbrev pub registerer_or_default : Option ℕ → ℕ
registerer_or_default none = default_registerer
registerer_or_default (some r) = r

-- The call of collectorsFor with which HTTPMetrics begins.
abbrev pub collectors_call : Option ℕ → Caller
collectors_call registerer = record {
  registerer = registerer_or_default registerer;
  stage = loading;
}

-- The response writer's status, and the writer under it. The handler was given the response writer,
-- and cannot put another in its place.
abbrev pub measured : Writer → ℕ × Writer
measured (response_writer status hijacked w) = (status, w)
measured (panic_tracking_writer written w) = (0, panic_tracking_writer written w)
measured (server_writer r) = (0, server_writer r)

abbrev pub pattern_label : String → String
pattern_label pattern = if str_eq pattern "" then "unknown" else pattern

-- A status of 0 counts as 200.
abbrev pub labels : Request → ℕ → Labels
labels r status = record {
  method = r.method;
  pattern = pattern_label r.pattern;
  status = or_ok status;
}

-- What follows the call of the wrapped handler; a panic unwinds past it.
abbrev pub recorded : ℕ → ℕ × Writer → Exchange × Outcome (Unit {0}) → Exchange × Outcome (Unit {0})
recorded set (status, w) (y, panics v) = (record y { writer = w }, panics v)
recorded set (status, w) (y, returns _) = (
  record y {
    writer = w;
    samples =
        y.samples
        ++ counted set (labels y.request status) ∷ observed set (labels y.request status) ∷ [];
  },
  returns tt,
)

unfoldable pub measuring : ℕ → MiddlewareFunc
measuring set next x =
    let (y, end) = next (record x { writer = response_writer 0 false x.writer }) in
    recorded set (measured y.writer) (y, end)

-- What HTTPMetrics returns when that call has ended with a set; a panic of the call is its own.
abbrev pub middleware_of : Stage → Option MiddlewareFunc
middleware_of (returned set) = some (measuring set)
middleware_of panicked = none
middleware_of loading = none
middleware_of (storing set) = none
middleware_of (registering set) = none
