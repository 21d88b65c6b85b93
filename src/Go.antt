-- ===== src/Go.antt =====
-- What the packages take from the Go language and its standard library: panics, errors, formatted
-- texts, loggers and durations.
use scaffold_go.Base.{ℕ, zero, suc, String, Bool, true, false, Option, none, some, List, [], ◌∷◌}

-- Go's `int`, `int64` and `time.Duration` (in nanoseconds). `negsuc n` is -(n + 1).
pub data ℤ : Type 0 where
  pos : ℕ → ℤ
  negsuc : ℕ → ℤ

-- What a format's verb prints: a string, or an int.
pub data Arg : Type 0 where
  str : String → Arg
  int : ℤ → Arg

-- A text that the code formats, kept as the format and what its verbs print.
pub data Text : Type 0 where
  sprintf : String → List Arg → Text
  itoa : ℕ → Text

-- How a Go call ends: it returns, or it panics with a value, kept as `fmt.Sprint` renders it.
pub data Outcome {ℓ} (A : Type ℓ) : Type ℓ where
  returns : A → Outcome A
  panics : Text → Outcome A

-- An `error` value: one that scaffold makes itself, with its fixed words and the values that it
-- formats in, or one that it was given by other code.
pub data Error : Type 0 where
  message : Text → Error
  wrapped : Text → Error → Error
  external : ℕ → Error

-- `errors.Join`: nil when nothing was joined.
abbrev pub join : List Error → Option (List Error)
join [] = none
join (e ∷ es) = some (e ∷ es)

abbrev pub Duration : Type 0
Duration = ℤ

-- `d > 0`
abbrev pub is_positive : Duration → Bool
is_positive (pos zero) = false
is_positive (pos (suc n)) = true
is_positive (negsuc n) = false

-- `d != 0`
abbrev pub is_nonzero : Duration → Bool
is_nonzero (pos zero) = false
is_nonzero (pos (suc n)) = true
is_nonzero (negsuc n) = true

-- A `*slog.Logger`: the service's, the default colour logger, or one with attributes added.
pub data Logger : Type 0 where
  given : ℕ → Logger
  default_logger : Logger
  with_attr : String → String → Logger → Logger

pub data Level : Type 0 where
  debug info warn error : Level

pub data Attr : Type 0 where
  text_attr : String → String → Attr
  error_attr : Error → Attr
  panic_attr : Text → Attr
  stack_attr : Attr

-- One record of a structured log.
pub record LogRecord : Type 0 where
  pub logger : Logger
  pub level : Level
  pub text : String
  pub attrs : List Attr
