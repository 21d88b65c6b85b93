-- ===== src/Api/Civil.antt =====
-- Every service that uses the exported API only keeps to what scaffold relies on.
use scaffold_go.Base.{
  ℕ, String, ◌≡◌, refl, ◌∙◌, true, ◌||◌, Bool-cases, inl, inr, Option, List, [], ◌∷◌, get_elem?,
  is_some, Option-cases,
}
use scaffold_go.Go.{Error}
use scaffold_go.Context.{Context}
use scaffold_go.Http.{Handler}
use scaffold_go.Binding.{new_binding}
use scaffold_go.Binding.Setters.{Setter, call_setter}
use scaffold_go.System.{BindingStore, Cleaner, Sys}
use scaffold_go.System.Rely.{
  Grows, Grows-refl, HeapKept, HeapKept-refl, Steady-trans, Rely, IsCivil,
}
use scaffold_go.Bindings
use scaffold_go.Bindings.Heap.{set-HeapKept}
use scaffold_go.Bindings.Store.{call_setter-SameServer, get_elem?-append_left}
use scaffold_go.Cleaner
use scaffold_go.Cleaner.{set_cleaner}
use scaffold_go.Api.{
  ApiCall, adds_binding, configures_binding, adds_clean_up, adds_on_listen_ready,
  adds_before_shutdown, call_api, call_api_each, Script, perform, scripted, set_bindings,
}

add-HeapKept :
    (name addr : String) (s : BindingStore) → HeapKept s.heap (Bindings.add name addr s).0.heap
unfolding Bindings.add
add-HeapKept name addr s = elim (Bool-cases (is_some (Bindings.lookup name s.by_name))) [
  | inl taken ↦ rw (taken, Bindings.add) (HeapKept-refl s.heap)
  | inr free ↦
      rw (free, Bindings.add)
        (λ i b e. (
          b,
          get_elem?-append_left s.heap (new_binding name addr ∷ []) i b e,
          record { same_name = refl; same_addr = refl; same_srv = refl },
        ))
]

configure-HeapKept :
    (r : ℕ) (c : Setter) (s : BindingStore) → HeapKept s.heap (Bindings.configure r c s).0.heap
unfolding Bindings.configure
configure-HeapKept r c s = elim (Option-cases (get_elem? s.heap r)) [
  | inl missing ↦ rw (missing, Bindings.configure) (HeapKept-refl s.heap)
  | inr (b, at_r) ↦
      rw (at_r, Bindings.configure)
        (set-HeapKept s.heap r b (call_setter c b).0 at_r (call_setter-SameServer c b)).0
]

-- What Cleaner.Add does to a cleaner.
record IsAddedTo (c d : Cleaner) : Type 0 where
  same_running : d.running ≡ c.running
  same_done : d.done ≡ c.done
  same_log : d.log ≡ c.log
  same_stack : (c.running || c.done) ≡ true → d.stack ≡ c.stack
  grows : Grows c.stack d.stack

add-IsAddedTo : (fn : ℕ) (c : Cleaner) → IsAddedTo c (Cleaner.add fn c).0
unfolding Cleaner.add
add-IsAddedTo fn c = elim (Bool-cases (c.running || c.done)) [
  | inl started ↦
      rw (started, Cleaner.add)
        (record {
          same_running = refl;
          same_done = refl;
          same_log = refl;
          same_stack = λ _. refl;
          grows = Grows-refl c.stack;
        })
  | inr idle ↦
      rw (idle, Cleaner.add)
        (record {
          same_running = refl;
          same_done = refl;
          same_log = refl;
          same_stack = λ h. cc;
          grows = record { added = fn ∷ []; grown = refl };
        })
]

module _ {World : Type 0} where
  set_bindings-Rely :
      (b : BindingStore) (s : Sys World)
      → HeapKept s.bindings.heap b.heap
      → Rely s (set_bindings b s)
  set_bindings-Rely b s kept = record {
    steady = record {
      flag_kept = refl;
      running_kept = refl;
      done_kept = refl;
      cleaner_log_kept = refl;
      stack_kept = λ _. refl;
      stack_grows = Grows-refl s.cleaner.stack;
      ready_grows = Grows-refl s.on_listen_ready;
      before_grows = Grows-refl s.before_shutdown;
      heap_kept = kept;
    };
    trace_kept = refl;
  }

  set_cleaner-Rely :
      (c : Cleaner) (s : Sys World) → IsAddedTo s.cleaner c → Rely s (set_cleaner c s)
  set_cleaner-Rely c s added = record {
    steady = record {
      flag_kept = refl;
      running_kept = added.same_running;
      done_kept = added.same_done;
      cleaner_log_kept = added.same_log;
      stack_kept = added.same_stack;
      stack_grows = added.grows;
      ready_grows = Grows-refl s.on_listen_ready;
      before_grows = Grows-refl s.before_shutdown;
      heap_kept = HeapKept-refl s.bindings.heap;
    };
    trace_kept = refl;
  }

  set_callbacks-Rely :
      (ready before : List ℕ) (s : Sys World)
      → Grows s.on_listen_ready ready
      → Grows s.before_shutdown before
      → Rely s (record s { on_listen_ready = ready; before_shutdown = before })
  set_callbacks-Rely ready before s more_ready more_before = record {
    steady = record {
      flag_kept = refl;
      running_kept = refl;
      done_kept = refl;
      cleaner_log_kept = refl;
      stack_kept = λ _. refl;
      stack_grows = Grows-refl s.cleaner.stack;
      ready_grows = more_ready;
      before_grows = more_before;
      heap_kept = HeapKept-refl s.bindings.heap;
    };
    trace_kept = refl;
  }

  call_api-Rely : (c : ApiCall) (s : Sys World) → Rely s (call_api c s)
  unfolding call_api
  call_api-Rely (adds_binding name addr) s =
      set_bindings-Rely _ s (add-HeapKept name addr s.bindings)
  call_api-Rely (configures_binding r c) s =
      set_bindings-Rely _ s (configure-HeapKept r c s.bindings)
  call_api-Rely (adds_clean_up fn) s = set_cleaner-Rely _ s (add-IsAddedTo fn s.cleaner)
  call_api-Rely (adds_on_listen_ready fn) s =
      set_callbacks-Rely _ s.before_shutdown s (record { added = fn ∷ []; grown = refl })
        (Grows-refl s.before_shutdown)
  call_api-Rely (adds_before_shutdown fn) s =
      set_callbacks-Rely s.on_listen_ready _ s (Grows-refl s.on_listen_ready)
        (record { added = fn ∷ []; grown = refl })

  call_api_each-Rely :
      (cs : List ApiCall) (s t : Sys World) → Rely s t → Rely s (call_api_each cs t)
  unfolding call_api_each
  call_api_each-Rely [] s t so_far = so_far
  call_api_each-Rely (c ∷ cs) s t so_far =
      let next = call_api-Rely c t in
      call_api_each-Rely cs s (call_api c t) (record {
        steady = Steady-trans so_far.steady next.steady;
        trace_kept = next.trace_kept ∙ so_far.trace_kept;
      })

  set_world-Rely : (w : World) (s : Sys World) → Rely s (record s { world = w })
  set_world-Rely w s = record {
    steady = record {
      flag_kept = refl;
      running_kept = refl;
      done_kept = refl;
      cleaner_log_kept = refl;
      stack_kept = λ _. refl;
      stack_grows = Grows-refl s.cleaner.stack;
      ready_grows = Grows-refl s.on_listen_ready;
      before_grows = Grows-refl s.before_shutdown;
      heap_kept = HeapKept-refl s.bindings.heap;
    };
    trace_kept = refl;
  }

  perform-Rely {ℓ} :
      {A : Type ℓ} (script : Script World A) (ctx : Context) (s : Sys World)
      → Rely s (perform script ctx s).0
  perform-Rely script ctx s =
      let (calls, w, end) = script ctx s in
      call_api_each-Rely calls s (record s { world = w }) (set_world-Rely w s)

  -- A service whose functions reach scaffold's state only by calling Add, the setters, Cleaner.Add,
  -- AddOnListenReady and AddBeforeShutdown, whichever calls they choose in each state and with
  -- whatever panics recovered, keeps to what the shutdown theorems rely on: it leaves the trace, the
  -- shutdown flag, the cleaner's flags and the servers as they are, and extends the lists at their
  -- ends only.
  pub scripted-IsCivil :
      (on_start on_stop : Script World (Option Error)) (callback : ℕ → Script World (Unit {0}))
      (error_handler : ℕ → Handler) (clean_function : ℕ → Script World (Option Error))
      → IsCivil (scripted on_start on_stop callback error_handler clean_function)
  scripted-IsCivil on_start on_stop callback error_handler clean_function = record {
    on_start_rely = λ ctx s. perform-Rely on_start ctx s;
    on_stop_rely = λ ctx s. perform-Rely on_stop ctx s;
    callback_rely = λ n ctx s. perform-Rely (callback n) ctx s;
    clean_rely = λ n ctx s. perform-Rely (clean_function n) ctx s;
  }
