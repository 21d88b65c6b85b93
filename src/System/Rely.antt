-- ===== src/System/Rely.antt =====
-- What scaffold relies on of the code that it calls. The service reaches scaffold's state only
-- through the exported API, whose operations all keep within `Rely`.
use scaffold_go.Base.{
  ℕ, ◌≡◌, refl, sym, ap, ap₂, ◌∙◌, true, ◌||◌, some, List, [], ◌∷◌, ◌++◌, append-nil, append_assoc,
  get_elem?,
}
use scaffold_go.Go.{LogRecord}
use scaffold_go.Context.{Context}
use scaffold_go.Binding.{Binding}
use scaffold_go.System.{Sys, Daemon, Event, logged, called, Call, calls, emit, note}

-- A list that has only grown at its end.
pub record Grows {ℓ} {A : Type ℓ} (xs ys : List A) : Type ℓ where
  pub added : List A
  pub grown : ys ≡ xs ++ added

module _ {ℓ} {A : Type ℓ} where
  pub Grows-refl : (xs : List A) → Grows xs xs
  Grows-refl xs = record { added = []; grown = sym (append-nil xs) }

  pub Grows-trans : {xs ys zs : List A} → Grows xs ys → Grows ys zs → Grows xs zs
  Grows-trans {xs} g h = record {
    added = g.added ++ h.added;
    grown = h.grown ∙ ap (λ l. l ++ h.added) g.grown ∙ append_assoc xs g.added h.added;
  }

-- A binding that other code may have configured further, and that scaffold has not touched.
pub record SameServer (a b : Binding) : Type 0 where
  pub same_name : b.name ≡ a.name
  pub same_addr : b.addr ≡ a.addr
  pub same_srv : b.srv ≡ a.srv

abbrev pub HeapKept : List Binding → List Binding → Type 0
HeapKept h k =
    (i : ℕ) (b : Binding)
    → get_elem? h i ≡ some b
    → (c : Binding) × (get_elem? k i ≡ some c) × SameServer b c

pub HeapKept-refl : (h : List Binding) → HeapKept h h
HeapKept-refl h i b e = (b, e, record { same_name = refl; same_addr = refl; same_srv = refl })

module _ {World : Type 0} where
  -- Steps that leave to scaffold what is scaffold's: the shutdown flag, the cleaner's flags, the
  -- servers; they may register callbacks, and clean-up functions until cleaning starts.
  pub record Steady (s t : Sys World) : Type 0 where
    pub flag_kept : t.shutdown_flag ≡ s.shutdown_flag
    pub running_kept : t.cleaner.running ≡ s.cleaner.running
    pub done_kept : t.cleaner.done ≡ s.cleaner.done
    pub cleaner_log_kept : t.cleaner.log ≡ s.cleaner.log
    pub stack_kept :
        (s.cleaner.running || s.cleaner.done) ≡ true → t.cleaner.stack ≡ s.cleaner.stack
    pub stack_grows : Grows s.cleaner.stack t.cleaner.stack
    pub ready_grows : Grows s.on_listen_ready t.on_listen_ready
    pub before_grows : Grows s.before_shutdown t.before_shutdown
    pub heap_kept : HeapKept s.bindings.heap t.bindings.heap

  pub record Rely (s t : Sys World) : Type 0 where
    pub steady : Steady s t
    pub trace_kept : t.trace ≡ s.trace

  pub Steady-refl : (s : Sys World) → Steady s s
  Steady-refl s = record {
    flag_kept = refl;
    running_kept = refl;
    done_kept = refl;
    cleaner_log_kept = refl;
    stack_kept = λ _. refl;
    stack_grows = Grows-refl s.cleaner.stack;
    ready_grows = Grows-refl s.on_listen_ready;
    before_grows = Grows-refl s.before_shutdown;
    heap_kept = HeapKept-refl s.bindings.heap;
  }

  pub Steady-trans : {s t u : Sys World} → Steady s t → Steady t u → Steady s u
  Steady-trans {s} {t} {u} a b = record {
    flag_kept = b.flag_kept ∙ a.flag_kept;
    running_kept = b.running_kept ∙ a.running_kept;
    done_kept = b.done_kept ∙ a.done_kept;
    cleaner_log_kept = b.cleaner_log_kept ∙ a.cleaner_log_kept;
    stack_kept = λ h. b.stack_kept (ap₂ ◌||◌ a.running_kept a.done_kept ∙ h) ∙ a.stack_kept h;
    stack_grows = Grows-trans a.stack_grows b.stack_grows;
    ready_grows = Grows-trans a.ready_grows b.ready_grows;
    before_grows = Grows-trans a.before_grows b.before_grows;
    heap_kept = λ i x e.
        let (y, f, p) = a.heap_kept i x e in
        let (z, g, q) = b.heap_kept i y f in
        (
          z,
          g,
          record {
            same_name = q.same_name ∙ p.same_name;
            same_addr = q.same_addr ∙ p.same_addr;
            same_srv = q.same_srv ∙ p.same_srv;
          },
        );
  }

  pub emit-Steady : (e : Event) (s : Sys World) → Steady s (emit e s)
  emit-Steady e s = record {
    flag_kept = refl;
    running_kept = refl;
    done_kept = refl;
    cleaner_log_kept = refl;
    stack_kept = λ _. refl;
    stack_grows = Grows-refl s.cleaner.stack;
    ready_grows = Grows-refl s.on_listen_ready;
    before_grows = Grows-refl s.before_shutdown;
    heap_kept = HeapKept-refl s.bindings.heap;
  }

  -- A service that keeps to the API and does not itself run the cleaner.
  pub record IsCivil (d : Daemon World) : Type 0 where
    pub on_start_rely : (ctx : Context) (s : Sys World) → Rely s (d.on_start ctx s).0
    pub on_stop_rely : (ctx : Context) (s : Sys World) → Rely s (d.on_stop ctx s).0
    pub callback_rely : (n : ℕ) (ctx : Context) (s : Sys World) → Rely s (d.callback n ctx s).0
    pub clean_rely : (n : ℕ) (ctx : Context) (s : Sys World) → Rely s (d.clean_function n ctx s).0

calls-append : (es fs : List Event) → calls (es ++ fs) ≡ calls es ++ calls fs
calls-append [] fs = refl
calls-append (logged r ∷ es) fs = calls-append es fs
calls-append (called c ∷ es) fs = ap (◌∷◌ c) (calls-append es fs)

-- Between the two states scaffold made these calls, in this order, and was otherwise steady.
pub record Does {World : Type 0} (cs : List Call) (s t : Sys World) : Type 0 where
  pub steady : Steady s t
  pub calls_made : calls t.trace ≡ calls s.trace ++ cs

module _ {World : Type 0} where
  pub Does-refl : (s : Sys World) → Does [] s s
  Does-refl s = record { steady = Steady-refl s; calls_made = sym (append-nil (calls s.trace)) }

  pub Does-trans :
      {cs ds : List Call} {s t u : Sys World} → Does cs s t → Does ds t u → Does (cs ++ ds) s u
  Does-trans {cs} {ds} {s} {t} {u} a b = record {
    steady = Steady-trans a.steady b.steady;
    calls_made = b.calls_made ∙ ap (λ l. l ++ ds) a.calls_made ∙ append_assoc (calls s.trace) cs ds;
  }

  pub Rely-Does : {s t : Sys World} → Rely s t → Does [] s t
  Rely-Does {s} r = record {
    steady = r.steady;
    calls_made = ap calls r.trace_kept ∙ sym (append-nil (calls s.trace));
  }

  pub logged-Does : (r : LogRecord) (s : Sys World) → Does [] s (emit (logged r) s)
  logged-Does r s = record {
    steady = emit-Steady (logged r) s;
    calls_made = calls-append s.trace (logged r ∷ []);
  }

  pub note-Does : (c : Call) (s : Sys World) → Does (c ∷ []) s (note c s)
  note-Does c s = record {
    steady = emit-Steady (called c) s;
    calls_made = calls-append s.trace (called c ∷ []);
  }

pub calls-logged : (es : List Event) (r : LogRecord) → calls (es ++ logged r ∷ []) ≡ calls es
calls-logged es r = calls-append es (logged r ∷ []) ∙ append-nil (calls es)

pub calls-called : (es : List Event) (c : Call) → calls (es ++ called c ∷ []) ≡ calls es ++ c ∷ []
calls-called es c = calls-append es (called c ∷ [])
