-- ===== src/Metrics/Collectors/Ends.antt =====
-- Every call of collectorsFor ends after three steps of its own, whatever the other calls do
-- (prometheus/metrics.go).
use scaffold_go.Base.{
  ℕ, zero, suc, ◌≤◌, ◌≡◌, refl, sym, ap, subst, ◌∙◌, Bool, true, false, inl, inr, Option, none,
  some, List, [], ◌∷◌, get_elem?, set, is_some, eq_of_some, Option-cases, arith, none≢some,
}
use scaffold_go.Metrics.Collectors.{
  Stage, loading, storing, registering, returned, panicked, Caller, Shared, cached, advance,
  advance_found, advance_at, interleave, calls_for,
}
use scaffold_go.Metrics.Collectors.Once.{
  registrations, pending, pending_one, one_if_cached, AgreesAt, interleave-IsSound,
  calls_for-IsSound,
}
use scaffold_go.Metrics.Collectors.Steps.{steps_left, turns, interleave-left}

-- A call that has ended.
abbrev pub is_ended : Stage → Bool
is_ended (returned set) = true
is_ended panicked = true
is_ended loading = false
is_ended (storing set) = false
is_ended (registering set) = false

ended_of_left : (stage : Stage) → steps_left stage ≤ 0 → is_ended stage ≡ true
ended_of_left loading h = absurd (omega arith)
ended_of_left (storing set) h = absurd (omega arith)
ended_of_left (registering set) h = absurd (omega arith)
ended_of_left (returned set) h = refl
ended_of_left panicked h = refl

-- The calls that have a place in the list, and a registerer each.
get_elem?-calls_for :
    (rs : List ℕ) (i r : ℕ)
    → get_elem? rs i ≡ some r
    → get_elem? (calls_for rs).0 i ≡ some (record { registerer = r; stage = loading })
get_elem?-calls_for [] i r e = cc
get_elem?-calls_for (q ∷ rs) zero r e =
    ap (λ q. some (record { registerer = q; stage = loading })) (eq_of_some e)
get_elem?-calls_for (q ∷ rs) (suc i) r e = get_elem?-calls_for rs i r e

pending-ended :
    (q : ℕ) (cs : List Caller)
    → ((i : ℕ) (c : Caller) → get_elem? cs i ≡ some c → is_ended c.stage ≡ true)
    → pending q cs ≡ 0
pending-ended q [] ended = refl
pending-ended q (c ∷ cs) ended =
    omega (arith, idle c.registerer c.stage (ended 0 c refl), pending-ended q cs λ i. ended (suc i))
  where
    idle :
        (r : ℕ) (stage : Stage)
        → is_ended stage ≡ true
        → pending_one q (record { registerer = r; stage = stage }) ≡ 0
    idle r loading e = cc
    idle r (storing set) e = cc
    idle r (registering set) e = cc
    idle r (returned set) e = ground arith
    idle r panicked e = ground arith

set-none :
    (cs : List Caller) (i j : ℕ) (d : Caller)
    → get_elem? cs j ≡ none
    → get_elem? (set cs i d) j ≡ none
set-none [] i j d e = e
set-none (x ∷ cs) zero zero d e = cc
set-none (x ∷ cs) zero (suc j) d e = e
set-none (x ∷ cs) (suc i) zero d e = cc
set-none (x ∷ cs) (suc i) (suc j) d e = set-none cs i j d e

calls_for-none : (rs : List ℕ) (j : ℕ) → get_elem? rs j ≡ none → get_elem? (calls_for rs).0 j ≡ none
calls_for-none [] j e = refl
calls_for-none (r ∷ rs) zero e = cc
calls_for-none (r ∷ rs) (suc j) e = calls_for-none rs j e

module _ (refuses : ℕ → Bool) where
  interleave-none :
      (is : List ℕ) (j : ℕ) (callers : List Caller) (s : Shared)
      → get_elem? callers j ≡ none
      → get_elem? (interleave refuses is (callers, s)).0 j ≡ none
  unfolding interleave advance_at
  interleave-none [] j callers s e = e
  interleave-none (i ∷ is) j callers s e =
      let x = advance_found refuses i callers s (get_elem? callers i) in
      interleave-none is j x.0 x.1 (kept (get_elem? callers i))
    where
      kept : (o : Option Caller) → get_elem? (advance_found refuses i callers s o).0 j ≡ none
      kept none = e
      kept (some c) = set-none callers i j (advance refuses c s).0 e

  -- When each of some concurrent calls has been given three steps, in whatever interleaving with the
  -- others, every call has ended, and MustRegister has been called exactly once for each registerer
  -- among them.
  pub interleave-ends :
      (rs is : List ℕ)
      → ((i r : ℕ) → get_elem? rs i ≡ some r → 3 ≤ turns i is)
      → let (callers, s) = interleave refuses is (calls_for rs) in
        (i r : ℕ)
        → get_elem? rs i ≡ some r
        → (d : Caller) × (get_elem? callers i ≡ some d)
          × (is_ended d.stage ≡ true)
          × (registrations r s.registered ≡ 1)
  interleave-ends rs is fair i r e =
      let (d, at_i, same, ended) = ends i r e in
      let (callers, s) = interleave refuses is (calls_for rs) in
      let sound =
        interleave-IsSound refuses is (calls_for rs).0 (calls_for rs).1 (calls_for-IsSound rs) in
      let idle = pending-ended r callers λ j c at_j. all_ended j c at_j in
      (
        d,
        at_i,
        ended,
        omega (
          arith,
          sound.once r,
          idle,
          one_of_cached r s.cache (
              subst (λ q. is_some (cached q s.cache) ≡ true) same
                (ended-cached d.registerer d.stage s.cache (sound.agree i d at_i) ended)),
        ),
      )
    where
      ends :
          (i r : ℕ)
          → get_elem? rs i ≡ some r
          → (d : Caller) × (get_elem? (interleave refuses is (calls_for rs)).0 i ≡ some d)
            × (d.registerer ≡ r)
            × (is_ended d.stage ≡ true)
      ends i r e =
          let (d, at_i, same, left) =
            interleave-left refuses is i (calls_for rs).0 (calls_for rs).1 _
              (get_elem?-calls_for rs i r e) in
          (d, at_i, same, ended_of_left d.stage (omega (arith, fair i r e)))

      all_ended :
          (j : ℕ) (c : Caller)
          → get_elem? (interleave refuses is (calls_for rs)).0 j ≡ some c
          → is_ended c.stage ≡ true
      all_ended j c at_j = elim (Option-cases (get_elem? rs j)) [
        | inl past ↦ absurd (
            none≢some (
              sym
                (interleave-none is j (calls_for rs).0 (calls_for rs).1 (calls_for-none rs j past))
              ∙ at_j))
        | inr (r, e) ↦
            let (d, at_d, _, ended) = ends j r e in
            subst (λ (x : Caller). is_ended x.stage ≡ true) (eq_of_some (sym at_d ∙ at_j)) ended
      ]

      one_of_cached :
          (r : ℕ) (m : List (ℕ × ℕ)) → is_some (cached r m) ≡ true → one_if_cached r m ≡ 1
      one_of_cached r m h = rw h

      ended-cached :
          (r : ℕ) (stage : Stage) (m : List (ℕ × ℕ))
          → AgreesAt r stage m
          → is_ended stage ≡ true
          → is_some (cached r m) ≡ true
      ended-cached r loading m a e = cc
      ended-cached r (storing set) m a e = cc
      ended-cached r (registering set) m a e = cc
      ended-cached r (returned set) m a e = ap is_some a
      ended-cached r panicked m a e = a
