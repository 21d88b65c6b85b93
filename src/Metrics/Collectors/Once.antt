-- ===== src/Metrics/Collectors/Once.antt =====
-- Every registerer has one set, which is registered with it once (prometheus/metrics.go).
use scaffold_go.Base.{
  ℕ, zero, suc, ◌+◌, ◌≤◌, ◌≡◌, refl, sym, ap, subst, ◌∙◌, Bool, true, false, ◌&&◌, Bool-cases, inl,
  inr, some, List, [], ◌∷◌, get_elem?, get_elem?-set, set, sum_of, sum_of-set, is_some, eq_of_some,
  Option-cases, ◌==◌, arith, if◌then◌else◌,
}
use scaffold_go.Metrics.Collectors.{
  Stage, loading, storing, registering, returned, panicked, Caller, Shared, cached, step_at,
  advance, advance_found, advance_at, interleave, calls_for,
}

-- How often MustRegister was called on a registerer.
abbrev pub registrations : ℕ → List (ℕ × ℕ) → ℕ
registrations r [] = 0
registrations r ((q, set) ∷ l) = (if q == r then 1 else 0) + registrations r l

abbrev pub is_registering : Stage → Bool
is_registering (registering set) = true
is_registering loading = false
is_registering (storing set) = false
is_registering (returned set) = false
is_registering panicked = false

-- Whether a call is about to call MustRegister on a registerer.
abbrev pub pending_one : ℕ → Caller → ℕ
pending_one r c = if c.registerer == r && is_registering c.stage then 1 else 0

abbrev pub pending : ℕ → List Caller → ℕ
pending r = sum_of (pending_one r)

abbrev pub one_if_cached : ℕ → List (ℕ × ℕ) → ℕ
one_if_cached r cache = if is_some (cached r cache) then 1 else 0

-- The set of a call is the cached one, from LoadOrStore on.
abbrev pub AgreesAt : ℕ → Stage → List (ℕ × ℕ) → Type 0
AgreesAt r loading cache = Unit {0}
AgreesAt r (storing set) cache = Unit {0}
AgreesAt r (registering set) cache = cached r cache ≡ some set
AgreesAt r (returned set) cache = cached r cache ≡ some set
AgreesAt r panicked cache = is_some (cached r cache) ≡ true

abbrev pub Agrees : List (ℕ × ℕ) → Caller → Type 0
Agrees cache c = AgreesAt c.registerer c.stage cache

-- A cached registerer has been registered or is about to be, once; another one is neither.
pub record IsSound (callers : List Caller) (s : Shared) : Type 0 where
  pub once : (r : ℕ) → registrations r s.registered + pending r callers ≡ one_if_cached r s.cache
  pub agree : (i : ℕ) (c : Caller) → get_elem? callers i ≡ some c → Agrees s.cache c

module _ (refuses : ℕ → Bool) where
  -- One step of a call, seen from a registerer; `others` are the pending calls but this one.
  step-once :
      (q r : ℕ) (stage : Stage) (s : Shared) (others : ℕ)
      → registrations q s.registered
          + (pending_one q (record { registerer = r; stage = stage }) + others)
        ≡ one_if_cached q s.cache
      → let (c, t) = step_at refuses r stage s in
        registrations q t.registered + (pending_one q c + others) ≡ one_if_cached q t.cache
  step-once q r loading s others e = ground arith
  step-once q r (storing set) s others e = ground arith
  step-once q r (registering set) s others e = ground arith
  step-once q r (returned set) s others e = e
  step-once q r panicked s others e = e

  -- What was cached stays so.
  step-cached :
      (q set r : ℕ) (stage : Stage) (s : Shared)
      → cached q s.cache ≡ some set
      → cached q (step_at refuses r stage s).1.cache ≡ some set
  step-cached q set r loading s e = ground arith
  step-cached q set r (storing new) s e = ground arith
  step-cached q set r (registering new) s e = e
  step-cached q set r (returned new) s e = e
  step-cached q set r panicked s e = e

  step-Agrees :
      (r : ℕ) (stage : Stage) (s : Shared)
      → AgreesAt r stage s.cache
      → let (c, t) = step_at refuses r stage s in Agrees t.cache c
  step-Agrees r loading s a = ground arith
  step-Agrees r (storing set) s a = ground arith
  step-Agrees r (registering set) s a = ground arith
  step-Agrees r (returned set) s a = a
  step-Agrees r panicked s a = a

Agrees-kept :
    (m n : List (ℕ × ℕ))
    → ((q set : ℕ) → cached q m ≡ some set → cached q n ≡ some set)
    → (r : ℕ) (stage : Stage) → AgreesAt r stage m
    → AgreesAt r stage n
Agrees-kept m n kept r loading a = tt
Agrees-kept m n kept r (storing set) a = tt
Agrees-kept m n kept r (registering set) a = kept r set a
Agrees-kept m n kept r (returned set) a = kept r set a
Agrees-kept m n kept r panicked a = elim (Option-cases (cached r m)) [
  | inl e ↦ cc
  | inr (set, e) ↦ ap is_some (kept r set e)
]

module _ (refuses : ℕ → Bool) where
  advance_at-IsSound :
      (i : ℕ) (callers : List Caller) (s : Shared)
      → IsSound callers s
      → let (callers', t) = advance_at refuses i (callers, s) in IsSound callers' t
  unfolding advance_at
  advance_at-IsSound i callers s sound = elim (Option-cases (get_elem? callers i)) [
    | inl e ↦
        subst (λ o. let x = advance_found refuses i callers s o in IsSound x.0 x.1) (sym e) sound
    | inr (c, e) ↦
        subst (λ o. let x = advance_found refuses i callers s o in IsSound x.0 x.1) (sym e)
          (stepped c e)
  ]
    where
      stepped :
          (c : Caller)
          → get_elem? callers i ≡ some c
          → let (d, t) = advance refuses c s in IsSound (set callers i d) t
      stepped c e =
          let (d, t) = step_at refuses c.registerer c.stage s in
          record {
            once = λ q.
                let (others, before, after) = sum_of-set (pending_one q) callers i c d e in
                ap (λ n. registrations q t.registered + n) after
                ∙ step-once refuses q c.registerer c.stage s others
                    (ap (λ n. registrations q s.registered + n) (sym before) ∙ sound.once q);
            agree = λ j b at_j. elim (get_elem?-set callers i j b d at_j) [
              | inl (same, made) ↦
                  subst (Agrees t.cache) made
                    (step-Agrees refuses c.registerer c.stage s (sound.agree i c e))
              | inr old ↦
                  Agrees-kept s.cache t.cache
                    (λ q set. step-cached refuses q set c.registerer c.stage s) b.registerer b.stage
                    (sound.agree j b old)
            ];
          }

  pub interleave-IsSound :
      (is : List ℕ) (callers : List Caller) (s : Shared)
      → IsSound callers s
      → let (callers', t) = interleave refuses is (callers, s) in IsSound callers' t
  unfolding interleave
  interleave-IsSound [] callers s sound = sound
  interleave-IsSound (i ∷ is) callers s sound =
      let x = advance_at refuses i (callers, s) in
      interleave-IsSound is x.0 x.1 (advance_at-IsSound i callers s sound)

one_if_cached-le : (r : ℕ) (cache : List (ℕ × ℕ)) → one_if_cached r cache ≤ 1
one_if_cached-le r cache = elim (Bool-cases (is_some (cached r cache))) [
  | inl old ↦ rw old (omega arith)
  | inr fresh ↦ rw fresh (omega arith)
]

pending-calls_for : (q : ℕ) (rs : List ℕ) → pending q (calls_for rs).0 ≡ 0
pending-calls_for q [] = refl
pending-calls_for q (r ∷ rs) = ground (arith, pending-calls_for q rs)

calls_for-agree :
    (rs : List ℕ) (i : ℕ) (c : Caller) → get_elem? (calls_for rs).0 i ≡ some c → c.stage ≡ loading
calls_for-agree [] i c e = cc
calls_for-agree (r ∷ rs) zero c e = sym (ap (λ (x : Caller). x.stage) (eq_of_some e))
calls_for-agree (r ∷ rs) (suc i) c e = calls_for-agree rs i c e

pub calls_for-IsSound : (rs : List ℕ) → let (callers, s) = calls_for rs in IsSound callers s
calls_for-IsSound rs = record {
  once = λ q. omega (arith, pending-calls_for q rs);
  agree =
      λ i c e. subst (λ stage. AgreesAt c.registerer stage []) (sym (calls_for-agree rs i c e)) tt;
}

-- However calls for some registerers interleave, MustRegister is called at most once for each
-- registerer, and any two calls for one that have returned have returned the same set.
pub interleave-once :
    (refuses : ℕ → Bool) (rs is : List ℕ)
    → let (callers, s) = interleave refuses is (calls_for rs) in
      ((r : ℕ) → registrations r s.registered ≤ 1)
      × ((i j : ℕ) (c d : Caller) (a b : ℕ)
          → get_elem? callers i ≡ some c
          → get_elem? callers j ≡ some d
          → c.registerer ≡ d.registerer
          → c.stage ≡ returned a
          → d.stage ≡ returned b
          → a ≡ b)
interleave-once refuses rs is =
    let (callers, s) = interleave refuses is (calls_for rs) in
    let sound =
      interleave-IsSound refuses is (calls_for rs).0 (calls_for rs).1 (calls_for-IsSound rs) in
    (
      λ r. omega (arith, sound.once r, one_if_cached-le r s.cache),
      λ i j c d a b at_i at_j same has_a has_b.
          let of_c =
            subst (λ stage. AgreesAt c.registerer stage s.cache) has_a (sound.agree i c at_i) in
          let of_d =
            subst (λ stage. AgreesAt d.registerer stage s.cache) has_b (sound.agree j d at_j) in
          eq_of_some (sym of_c ∙ ap (λ r. cached r s.cache) same ∙ of_d),
    )
