-- ===== src/System/Failures.antt =====
-- The failures of a shutdown, read off the log: the errors in the records by which runShutdown and
-- its steps report that one was returned.
use scaffold_go.Base.{
  ◌≡◌, refl, sym, ap, ◌∙◌, Bool, ◌||◌, List, [], ◌∷◌, ◌++◌, append-nil, append_assoc, str_eq,
  String, if◌then◌else◌,
}
use scaffold_go.Go.{Error, LogRecord, Attr, text_attr, error_attr, panic_attr, stack_attr}
use scaffold_go.System.{Sys, Event, logged, called, Call, emit, note}
use scaffold_go.System.Rely.{Rely}

abbrev error_attrs : List Attr → List Error
error_attrs [] = []
error_attrs (error_attr e ∷ rest) = e ∷ error_attrs rest
error_attrs (text_attr _ _ ∷ rest) = error_attrs rest
error_attrs (panic_attr _ ∷ rest) = error_attrs rest
error_attrs (stack_attr ∷ rest) = error_attrs rest

abbrev is_failure : String → Bool
is_failure text =
    str_eq text "binding shutdown returned error"
    || str_eq text "OnStop returned error"
    || str_eq text "cleaner returned error"

abbrev pub failure_of : LogRecord → List Error
failure_of r = if is_failure r.text then error_attrs r.attrs else []

abbrev pub failures : List Event → List Error
failures [] = []
failures (logged r ∷ es) = failure_of r ++ failures es
failures (called c ∷ es) = failures es

failures-append : (es fs : List Event) → failures (es ++ fs) ≡ failures es ++ failures fs
failures-append [] fs = refl
failures-append (logged r ∷ es) fs =
    ap (λ l. failure_of r ++ l) (failures-append es fs)
    ∙ sym (append_assoc (failure_of r) (failures es) (failures fs))
failures-append (called c ∷ es) fs = failures-append es fs

-- Between the two states the log has gained these failures, in this order.
pub record Fails {World : Type 0} (errs : List Error) (s t : Sys World) : Type 0 where
  pub logged_failures : failures t.trace ≡ failures s.trace ++ errs

module _ {World : Type 0} where
  pub Fails-refl : (s : Sys World) → Fails [] s s
  Fails-refl s = record { logged_failures = sym (append-nil (failures s.trace)) }

  pub Fails-trans :
      {es fs : List Error} {s t u : Sys World} → Fails es s t → Fails fs t u → Fails (es ++ fs) s u
  Fails-trans {es} {fs} {s} a b = record {
    logged_failures =
        b.logged_failures
        ∙ ap (λ l. l ++ fs) a.logged_failures
        ∙ append_assoc (failures s.trace) es fs;
  }

  pub Rely-Fails : {s t : Sys World} → Rely s t → Fails [] s t
  Rely-Fails {s} r = record {
    logged_failures = ap failures r.trace_kept ∙ sym (append-nil (failures s.trace));
  }

  pub note-Fails : (c : Call) (s : Sys World) → Fails [] s (note c s)
  note-Fails c s = record { logged_failures = failures-append s.trace (called c ∷ []) }

  pub logged-Fails :
      (r : LogRecord) {errs : List Error} (s : Sys World)
      → failure_of r ≡ errs
      → Fails errs s (emit (logged r) s)
  logged-Fails r s e = record {
    logged_failures =
        failures-append s.trace (logged r ∷ [])
        ∙ ap (λ l. failures s.trace ++ l) (append-nil (failure_of r) ∙ e);
  }
