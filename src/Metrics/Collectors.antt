-- ===== src/Metrics/Collectors.antt =====
-- collectorsFor of prometheus/metrics.go, as concurrent calls interleave. The cache is a sync.Map, of
-- which each operation is one step; creating the two collectors is a step too.
pub mod Once
pub mod Steps
pub mod Ends
use scaffold_go.Base.{
  ℕ, zero, suc, ◌+◌, Bool, true, false, Option, none, some, List, [], ◌∷◌, ◌++◌, map, get_elem?,
  set, ◌==◌, if◌then◌else◌,
}

-- Where a call stands: before the Load; before the LoadOrStore, with the set that it has created;
-- before MustRegister; and at its end, with a set, or with the panic of MustRegister.
pub data Stage : Type 0 where
  loading : Stage
  storing : ℕ → Stage
  registering : ℕ → Stage
  returned : ℕ → Stage
  panicked : Stage

-- A call, for a registerer.
pub record Caller : Type 0 where
  pub registerer : ℕ
  pub stage : Stage

-- The cache, the sets created so far, of which each is known by its number, and the calls of
-- MustRegister so far, each with its registerer and set.
pub record Shared : Type 0 where
  pub cache : List (ℕ × ℕ)
  pub created : ℕ
  pub registered : List (ℕ × ℕ)

abbrev pub cached : ℕ → List (ℕ × ℕ) → Option ℕ
cached r [] = none
cached r ((q, set) ∷ m) = if q == r then some set else cached r m

-- After Load.
abbrev pub load : ℕ → Option ℕ → Shared → Caller × Shared
load r (some set) s = (record { registerer = r; stage = returned set }, s)
load r none s =
    (record { registerer = r; stage = storing s.created }, record s { created = suc s.created })

-- After LoadOrStore of a set.
abbrev pub load_or_store : ℕ → ℕ → Option ℕ → Shared → Caller × Shared
load_or_store r set (some actual) s = (record { registerer = r; stage = returned actual }, s)
load_or_store r set none s =
    (record { registerer = r; stage = registering set }, record s { cache = (r, set) ∷ s.cache })

-- The registerers that refuse the set, since collectors of these names are registered already.
module _ (refuses : ℕ → Bool) where
  abbrev pub must_register : ℕ → ℕ → Shared → Caller × Shared
  must_register r set s = (
    record { registerer = r; stage = (if refuses r then panicked else returned set) },
    record s { registered = (r, set) ∷ s.registered },
  )

  -- The next step of a call.
  abbrev pub step_at : ℕ → Stage → Shared → Caller × Shared
  step_at r loading s = load r (cached r s.cache) s
  step_at r (storing set) s = load_or_store r set (cached r s.cache) s
  step_at r (registering set) s = must_register r set s
  step_at r (returned set) s = (record { registerer = r; stage = returned set }, s)
  step_at r panicked s = (record { registerer = r; stage = panicked }, s)

  unfoldable pub advance : Caller → Shared → Caller × Shared
  advance c s = step_at c.registerer c.stage s

  abbrev pub put_caller : ℕ → List Caller → Caller × Shared → List Caller × Shared
  put_caller i callers (c, s) = (set callers i c, s)

  abbrev pub advance_found : ℕ → List Caller → Shared → Option Caller → List Caller × Shared
  advance_found i callers s none = (callers, s)
  advance_found i callers s (some c) = put_caller i callers (advance c s)

  -- The call at a place of the list makes its next step.
  unfoldable pub advance_at : ℕ → List Caller × Shared → List Caller × Shared
  unfolding advance
  advance_at i (callers, s) = advance_found i callers s (get_elem? callers i)

  -- Any interleaving: the calls that step, in order.
  unfoldable pub interleave : List ℕ → List Caller × Shared → List Caller × Shared
  interleave [] x = x
  interleave (i ∷ is) x = interleave is (advance_at i x)

-- The calls for some registerers, and nothing in the cache.
abbrev pub calls_for : List ℕ → List Caller × Shared
calls_for rs = (
  map (λ r. record { registerer = r; stage = loading }) rs,
  record { cache = []; created = 0; registered = [] },
)
