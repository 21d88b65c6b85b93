-- ===== src/Cleaner/Concurrent/Sound.antt =====
-- One Clean runs every function that was accepted, once, whatever the interleaving (cleaner.go).
use scaffold_go.Base.{
  ℕ, zero, suc, ◌≤◌, ◌≡◌, refl, sym, ap, ap₂, subst, none≢some, ◌∙◌, true, false, ◌||◌, some, List,
  [], ◌∷◌, ◌++◌, append-nil, append_assoc, reverse, length, get_elem?, set, eq_of_some, arith,
}
use mathlib.Core.Bool.{false≢true}
use scaffold_go.Go.{Logger}
use scaffold_go.Cleaner
use scaffold_go.Cleaner.Concurrent.{
  Sweep, sweeping, swept, Shared, after_add, after_begin, after_run, after_end, Step, adds, begins,
  runs, ends, Reach, here, next, unused,
}

-- The three stages of a cleaner.
pub data IsSound (s : Shared) : Type 0 where
  idle :
      s.cleaner.running ≡ false
      → s.cleaner.done ≡ false
      → s.cleaner.stack ≡ s.accepted
      → s.sweeps ≡ []
      → s.ran ≡ []
      → IsSound s
  cleaning :
      (rest : List ℕ)
      → s.cleaner.running ≡ true
      → s.cleaner.done ≡ false
      → s.sweeps ≡ sweeping rest ∷ []
      → s.ran ++ rest ≡ reverse s.accepted
      → IsSound s
  cleaned :
      s.cleaner.running ≡ false
      → s.cleaner.done ≡ true
      → s.sweeps ≡ swept ∷ []
      → s.ran ≡ reverse s.accepted
      → IsSound s

after_add-IsSound : (fn : ℕ) (s : Shared) → IsSound s → IsSound (after_add fn s)
unfolding Cleaner.add
after_add-IsSound fn s (idle not_running not_done held none_begun none_ran) =
    rw (not_running, not_done, Cleaner.add)
      (idle refl refl (ap (λ l. l ++ fn ∷ []) held) none_begun none_ran)
after_add-IsSound fn s (cleaning rest running not_done sweep order) =
    rw (running, not_done, Cleaner.add) (cleaning rest refl refl sweep order)
after_add-IsSound fn s (cleaned not_running done sweep order) =
    rw (not_running, done, Cleaner.add) (cleaned refl refl sweep order)

after_begin-IsSound : (s : Shared) → IsSound s → IsSound (after_begin s)
after_begin-IsSound s (idle not_running not_done held none_begun none_ran) =
    rw (not_running, not_done)
      (cleaning (reverse s.cleaner.stack) refl refl
        (ap (λ l. l ++ sweeping (reverse s.cleaner.stack) ∷ []) none_begun)
        (ap (λ l. l ++ reverse s.cleaner.stack) none_ran ∙ ap reverse held))
after_begin-IsSound s (cleaning rest running not_done sweep order) =
    rw (running, not_done) (cleaning rest refl refl sweep order)
after_begin-IsSound s (cleaned not_running done sweep order) =
    rw (not_running, done) (cleaned refl refl sweep order)

-- The only sweep of the list.
only_sweep : (i : ℕ) (x y : Sweep) → get_elem? (x ∷ []) i ≡ some y → (i ≡ 0) × (x ≡ y)
only_sweep zero x y e = (refl, eq_of_some e)
only_sweep (suc i) x y e = cc

remaining : Sweep → List ℕ
remaining (sweeping rest) = rest
remaining swept = []

after_run-IsSound :
    (s : Shared) (i fn : ℕ) (rest : List ℕ)
    → get_elem? s.sweeps i ≡ some (sweeping (fn ∷ rest))
    → IsSound s
    → IsSound (after_run i fn rest s)
unfolding remaining
after_run-IsSound s i fn rest e (idle not_running not_done held none_begun none_ran) =
    absurd (none≢some (subst (λ l. get_elem? l i ≡ some (sweeping (fn ∷ rest))) none_begun e))
after_run-IsSound s i fn rest e (cleaning todo running not_done sweep order) =
    let (first, same) =
      only_sweep i (sweeping todo) (sweeping (fn ∷ rest))
        (subst (λ l. get_elem? l i ≡ some (sweeping (fn ∷ rest))) sweep e) in
    cleaning rest running not_done
      (ap (λ l. set l i (sweeping rest)) sweep
        ∙ ap (λ j. set (sweeping todo ∷ []) j (sweeping rest)) first)
      (append_assoc s.ran (fn ∷ []) rest ∙ ap (λ l. s.ran ++ l) (sym (ap remaining same)) ∙ order)
after_run-IsSound s i fn rest e (cleaned not_running done sweep order) =
    let (first, same) =
      only_sweep i swept (sweeping (fn ∷ rest))
        (subst (λ l. get_elem? l i ≡ some (sweeping (fn ∷ rest))) sweep e) in
    cc

after_end-IsSound :
    (s : Shared) (i : ℕ)
    → get_elem? s.sweeps i ≡ some (sweeping [])
    → IsSound s
    → IsSound (after_end i s)
unfolding remaining
after_end-IsSound s i e (idle not_running not_done held none_begun none_ran) =
    absurd (none≢some (subst (λ l. get_elem? l i ≡ some (sweeping [])) none_begun e))
after_end-IsSound s i e (cleaning todo running not_done sweep order) =
    let (first, same) =
      only_sweep i (sweeping todo) (sweeping [])
        (subst (λ l. get_elem? l i ≡ some (sweeping [])) sweep e) in
    cleaned refl refl
      (ap (λ l. set l i swept) sweep ∙ ap (λ j. set (sweeping todo ∷ []) j swept) first)
      (sym (append-nil s.ran) ∙ ap (λ l. s.ran ++ l) (sym (ap remaining same)) ∙ order)
after_end-IsSound s i e (cleaned not_running done sweep order) =
    let (first, same) =
      only_sweep i swept (sweeping []) (subst (λ l. get_elem? l i ≡ some (sweeping [])) sweep e) in
    cc

Step-IsSound : {s t : Shared} → Step s t → IsSound s → IsSound t
Step-IsSound (adds s fn) sound = after_add-IsSound fn s sound
Step-IsSound (begins s) sound = after_begin-IsSound s sound
Step-IsSound (runs s i fn rest e) sound = after_run-IsSound s i fn rest e sound
Step-IsSound (ends s i e) sound = after_end-IsSound s i e sound

Reach-IsSound : {s t : Shared} → IsSound s → Reach s t → IsSound t
Reach-IsSound sound here = sound
Reach-IsSound sound (next r st) = Step-IsSound st (Reach-IsSound sound r)

-- What Clean promises to its callers: at most one is not refused; no function runs before it begins;
-- then those that have run are those that Add has accepted, last first, as far as it has come; and
-- all of them, once it is done.
pub record RunsOnce (s : Shared) : Type 0 where
  pub one_sweep : length s.sweeps ≤ 1
  pub untouched :
      (s.cleaner.running || s.cleaner.done) ≡ false → (s.ran ≡ []) × (s.cleaner.stack ≡ s.accepted)
  pub left : List ℕ
  pub in_order : (s.cleaner.running || s.cleaner.done) ≡ true → s.ran ++ left ≡ reverse s.accepted
  pub complete : s.cleaner.done ≡ true → s.ran ≡ reverse s.accepted

IsSound-RunsOnce : (s : Shared) → IsSound s → RunsOnce s
IsSound-RunsOnce s (idle not_running not_done held none_begun none_ran) = record {
  one_sweep = rw none_begun (omega arith);
  untouched = λ _. (none_ran, held);
  left = [];
  in_order = λ started. absurd (false≢true (sym (ap₂ ◌||◌ not_running not_done) ∙ started));
  complete = λ done. absurd (false≢true (sym not_done ∙ done));
}
IsSound-RunsOnce s (cleaning rest running not_done sweep order) = record {
  one_sweep = rw sweep (omega arith);
  untouched = λ not_started. absurd (false≢true (sym not_started ∙ ap₂ ◌||◌ running not_done));
  left = rest;
  in_order = λ _. order;
  complete = λ done. absurd (false≢true (sym not_done ∙ done));
}
IsSound-RunsOnce s (cleaned not_running done sweep order) = record {
  one_sweep = rw sweep (omega arith);
  untouched = λ not_started. absurd (false≢true (sym not_started ∙ ap₂ ◌||◌ not_running done));
  left = [];
  in_order = λ _. append-nil s.ran ∙ order;
  complete = λ _. order;
}

-- Under any interleaving of any number of Adds and Cleans on a new cleaner, at most one Clean is not
-- refused. Before it begins, no function has run, and the cleaner holds those that Add has accepted;
-- from then on, those that have run are those that were accepted, last first, each once, as far as
-- the Clean has come; and once it is done, all of them have run.
pub Reach-RunsOnce : (log : Logger) (s : Shared) → Reach (unused log) s → RunsOnce s
Reach-RunsOnce log s r = IsSound-RunsOnce s (Reach-IsSound (idle refl refl refl refl refl) r)
