-- ===== src/Metrics/Collectors/Steps.antt =====
-- The steps that a call of collectorsFor has left, under an interleaving.
use scaffold_go.Base.{
  ℕ, zero, suc, ◌+◌, ◌-◌, ◌≤◌, ◌≡◌, refl, sym, ap, subst, ◌∙◌, Bool, true, false, Bool-cases, inl,
  inr, Option, some, List, [], ◌∷◌, get_elem?, set, Option-cases, ◌==◌, arith, if◌then◌else◌, ◌≢◌,
}
use scaffold_go.Metrics.Collectors.{
  Stage, loading, storing, registering, returned, panicked, Caller, Shared, step_at, advance,
  advance_found, advance_at, interleave,
}

-- The steps that are left to a call.
abbrev pub steps_left : Stage → ℕ
steps_left loading = 3
steps_left (storing set) = 2
steps_left (registering set) = 1
steps_left (returned set) = 0
steps_left panicked = 0

-- How often a call steps.
abbrev pub turns : ℕ → List ℕ → ℕ
turns i [] = 0
turns i (j ∷ js) = (if j == i then 1 else 0) + turns i js

module _ (refuses : ℕ → Bool) where
  step-left :
      (r : ℕ) (stage : Stage) (s : Shared)
      → let (c, t) = step_at refuses r stage s in
        (steps_left c.stage ≤ steps_left stage - 1) × (c.registerer ≡ r)
  step-left r loading s = (ground arith, ground arith)
  step-left r (storing set) s = (ground arith, ground arith)
  step-left r (registering set) s = (ground arith, refl)
  step-left r (returned set) s = (omega arith, refl)
  step-left r panicked s = (omega arith, refl)

  get_elem?-set_same :
      (cs : List Caller) (i : ℕ) (c d : Caller)
      → get_elem? cs i ≡ some c
      → get_elem? (set cs i d) i ≡ some d
  get_elem?-set_same [] i c d e = cc
  get_elem?-set_same (x ∷ cs) zero c d e = refl
  get_elem?-set_same (x ∷ cs) (suc i) c d e = get_elem?-set_same cs i c d e

  get_elem?-set_other :
      (cs : List Caller) (i j : ℕ) (d : Caller) → i ≢ j → get_elem? (set cs i d) j ≡ get_elem? cs j
  get_elem?-set_other [] i j d n = refl
  get_elem?-set_other (x ∷ cs) zero zero d n = absurd (n refl)
  get_elem?-set_other (x ∷ cs) zero (suc j) d n = refl
  get_elem?-set_other (x ∷ cs) (suc i) zero d n = refl
  get_elem?-set_other (x ∷ cs) (suc i) (suc j) d n =
      get_elem?-set_other cs i j d (λ e. n (ap suc e))

  eq-of-== : (i j : ℕ) → (i == j) ≡ true → i ≡ j
  eq-of-== i j e = ground arith

  ne-of-== : (i j : ℕ) → (i == j) ≡ false → i ≢ j
  ne-of-== i j e h = ground arith

  abbrev pub Progress : ℕ → Caller → Option Caller → Type 0
  Progress k c o =
      (d : Caller) × (o ≡ some d)
      × (d.registerer ≡ c.registerer)
      × (steps_left d.stage ≤ steps_left c.stage - k)

  -- What one step of some call does to a given call.
  advance_at-left :
      (i j : ℕ) (callers : List Caller) (s : Shared) (c : Caller)
      → get_elem? callers j ≡ some c
      → Progress (if i == j then 1 else 0) c (get_elem? (advance_at refuses i (callers, s)).0 j)
  unfolding advance_at
  advance_at-left i j callers s c at_j = elim (Bool-cases (i == j)) [
    | inl same ↦ rw same (
        subst
          (λ k.
            Progress 1 c (get_elem? (advance_found refuses k callers s (get_elem? callers k)).0 j))
          (sym (eq-of-== i j same)) own)
    | inr differ ↦ rw differ (other (ne-of-== i j differ))
  ]
    where
      own : Progress 1 c (get_elem? (advance_found refuses j callers s (get_elem? callers j)).0 j)
      own =
          let (fewer, same) = step-left c.registerer c.stage s in
          subst (λ o. Progress 1 c (get_elem? (advance_found refuses j callers s o).0 j)) (sym at_j)
            ((advance refuses c s).0, get_elem?-set_same callers j c _ at_j, same, fewer)

      other :
          i ≢ j
          → Progress 0 c (get_elem? (advance_found refuses i callers s (get_elem? callers i)).0 j)
      other n = elim (Option-cases (get_elem? callers i)) [
        | inl e ↦
            subst (λ o. Progress 0 c (get_elem? (advance_found refuses i callers s o).0 j)) (sym e)
              (c, at_j, refl, omega arith)
        | inr (b, e) ↦
            subst (λ o. Progress 0 c (get_elem? (advance_found refuses i callers s o).0 j)) (sym e)
              (c, get_elem?-set_other callers i j _ n ∙ at_j, refl, omega arith)
      ]

  pub interleave-left :
      (is : List ℕ) (j : ℕ) (callers : List Caller) (s : Shared) (c : Caller)
      → get_elem? callers j ≡ some c
      → Progress (turns j is) c (get_elem? (interleave refuses is (callers, s)).0 j)
  unfolding interleave
  interleave-left [] j callers s c at_j = (c, at_j, refl, omega arith)
  interleave-left (i ∷ is) j callers s c at_j =
      let x = advance_at refuses i (callers, s) in
      let (b, at_b, same_b, left_b) = advance_at-left i j callers s c at_j in
      let (d, at_d, same_d, left_d) = interleave-left is j x.0 x.1 b at_b in
      (d, at_d, same_d ∙ same_b, omega arith)
