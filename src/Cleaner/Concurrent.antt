-- ===== src/Cleaner/Concurrent.antt =====
-- Concurrent calls of a cleaner's Add and Clean (cleaner.go). What a call does while it holds the
-- mutex is one step; the functions run without the mutex, and may themselves call Add and Clean.
pub mod Sound
use scaffold_go.Base.{
  ℕ, ◌≡◌, Bool, true, false, ◌||◌, Option, some, List, [], ◌∷◌, ◌++◌, reverse, get_elem?, set,
  if◌then◌else◌,
}
use scaffold_go.Go.{Logger}
use scaffold_go.System.{Cleaner}
use scaffold_go.Cleaner
use scaffold_go.Cleaner.{fresh_cleaner}

-- A Clean that has not been refused: in its loop, with the functions that it has not started, or past
-- its end.
pub data Sweep : Type 0 where
  sweeping : List ℕ → Sweep
  swept : Sweep

-- The cleaner, the Cleans that were not refused, and what has happened: the functions that Add has
-- accepted and those that have been started, in order.
pub record Shared : Type 0 where
  pub cleaner : Cleaner
  pub sweeps : List Sweep
  pub accepted : List ℕ
  pub ran : List ℕ

-- A whole Add.
abbrev pub after_add : ℕ → Shared → Shared
after_add fn s = record s {
  cleaner = (Cleaner.add fn s.cleaner).0;
  accepted = (if s.cleaner.running || s.cleaner.done then s.accepted else s.accepted ++ fn ∷ []);
}

-- The first critical section of Clean. A refused Clean has ended.
abbrev pub after_begin : Shared → Shared
after_begin s = if s.cleaner.running || s.cleaner.done then s else record s {
  cleaner = record (s.cleaner) { running = true; stack = [] };
  sweeps = s.sweeps ++ sweeping (reverse s.cleaner.stack) ∷ [];
}

-- The next function of a loop is started.
abbrev pub after_run : ℕ → ℕ → List ℕ → Shared → Shared
after_run i fn rest s = record s { sweeps = set s.sweeps i (sweeping rest); ran = s.ran ++ fn ∷ [] }

-- The last critical section of Clean.
abbrev pub after_end : ℕ → Shared → Shared
after_end i s = record s {
  cleaner = record (s.cleaner) { running = false; done = true };
  sweeps = set s.sweeps i swept;
}

-- A step of one of the calls.
pub data Step : Shared → Shared → Type 0 where
  adds : (s : Shared) (fn : ℕ) → Step s (after_add fn s)
  begins : (s : Shared) → Step s (after_begin s)
  runs :
      (s : Shared) (i fn : ℕ) (rest : List ℕ)
      → get_elem? s.sweeps i ≡ some (sweeping (fn ∷ rest))
      → Step s (after_run i fn rest s)
  ends : (s : Shared) (i : ℕ) → get_elem? s.sweeps i ≡ some (sweeping []) → Step s (after_end i s)

pub data Reach (s : Shared) : Shared → Type 0 where
  here : Reach s s
  next : {t u : Shared} → Reach s t → Step t u → Reach s u

-- A new cleaner.
abbrev pub unused : Logger → Shared
unused log = record { cleaner = fresh_cleaner log; sweeps = []; accepted = []; ran = [] }
