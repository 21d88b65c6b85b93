-- ===== src/Lifecycle/Loops/Errors.antt =====
-- The errors in the log, and those that serve loops have yet to log (scaffold.go).
use scaffold_go.Base.{
  ℕ, ◌≡◌, refl, ap, Bool, true, false, inl, inr, List, [], ◌∷◌, ◌++◌, some, get_elem?, set, sum_of,
  sum_of-set, arith, length, length-append, ◌+◌, Bool-cases, if◌then◌else◌,
}
use scaffold_go.Go.{Level, LogRecord}
use scaffold_go.System.{Event, logged, called}
use scaffold_go.Lifecycle.Loops.{LoopStage, serving, returned, observed, finished, Loop}

abbrev pub is_error : Level → Bool
is_error Level.error = true
is_error Level.warn = false
is_error Level.info = false
is_error Level.debug = false

-- The records of the log that are errors.
abbrev pub errors : List Event → List LogRecord
errors [] = []
errors (logged r ∷ es) = if is_error r.level then r ∷ errors es else errors es
errors (called c ∷ es) = errors es

errors-append : (es fs : List Event) → errors (es ++ fs) ≡ errors es ++ errors fs
errors-append [] fs = refl
errors-append (logged r ∷ es) fs = elim (Bool-cases (is_error r.level)) [
  | inl error ↦ rw error (ap (◌∷◌ r) (errors-append es fs))
  | inr other ↦ rw other (errors-append es fs)
]
errors-append (called c ∷ es) fs = errors-append es fs

pub errors_one_more :
    (es : List Event) (r : LogRecord)
    → length (errors (es ++ logged r ∷ []))
      ≡ length (errors es) + (if is_error r.level then 1 else 0)
errors_one_more es r = rw (errors-append es (logged r ∷ [])) (elim (Bool-cases (is_error r.level)) [
  | inl error ↦ rw error (length-append (errors es) (r ∷ []))
  | inr other ↦ rw other (length-append (errors es) [])
])

-- Whether the loop has read the flag unset, and has not logged yet.
abbrev pub unset_seen : LoopStage → ℕ
unset_seen serving = 0
unset_seen (returned result) = 0
unset_seen (observed seen result) = if seen then 0 else 1
unset_seen finished = 0

abbrev pub unsettled_one : Loop → ℕ
unsettled_one l = unset_seen l.stage

abbrev pub unsettled : List Loop → ℕ
unsettled = sum_of unsettled_one

pub unsettled-set :
    (ls : List Loop) (i : ℕ) (l m : Loop)
    → get_elem? ls i ≡ some l
    → unsettled (set ls i m) + unset_seen l.stage ≡ unsettled ls + unset_seen m.stage
unsettled-set ls i l m e =
    let (others, before, after) = sum_of-set unsettled_one ls i l m e in
    omega (arith, before, after)
