-- ===== src/Tests/Configuration.antt =====
-- Runs of the setters, the store of bindings, the cleaner and the contexts.
use scaffold_go.Base.{
  ℕ, ◌≡◌, ◌≢◌, refl, true, false, none, some, List, [], ◌∷◌, ◌++◌, map, get_elem?, str_eq, length,
  if◌then◌else◌,
}
use scaffold_go.Go.{pos, returns, sprintf, str}
use scaffold_go.Binding.{Binding, new_binding, set_tls}
use scaffold_go.Binding.Setters.{
  Setter, uses_middleware, adds_rpc, sets_error_handler, sets_tls, sets_timeouts, serves_func,
  call_setter, run_setters, IsValid, mws_of, rpc_of, concat_map, call_setter_panics,
  run_setters-IsValid, run_setters-pipeline,
}
use scaffold_go.System.{BindingStore, test_bindings, calls, clean_call}
use scaffold_go.Cleaner.{add, clean}
use scaffold_go.Cleaner.Concurrent.{
  unused, after_add, after_begin, after_run, adds, begins, runs, Reach, here, next,
}
use scaffold_go.Cleaner.Concurrent.Sound.{RunsOnce, Reach-RunsOnce}
use scaffold_go.Cleaner.Order.{clean_first}
use scaffold_go.Bindings.{get, ordered_bindings}
use scaffold_go.Bindings.{add as add_binding}
use scaffold_go.Bindings.Store.{refs_from, add-get}
use scaffold_go.Bindings.Runs.{
  StoreCall, adds, configures, run_store, no_bindings, run_store-from_empty,
}
use scaffold_go.Tests.Service.{log, service, service-IsCivil, ctx, plain, state}

-- A serve function, after the timeouts: the former panics and the latter stay.
abbrev setters : List Setter
setters = sets_timeouts (pos 1) (pos 0) (pos 0) ∷ serves_func (some 4) ∷ []

run_setters-IsValid_example : IsValid (run_setters setters (new_binding "http" ":80"))
run_setters-IsValid_example = run_setters-IsValid setters "http" ":80"

abbrev http_setters : List Setter
http_setters =
    uses_middleware []
    ∷ sets_tls (some 3)
    ∷ adds_rpc []
    ∷ sets_error_handler (pos 404) (some 1)
    ∷ []

run_setters-pipeline_example :
    let b = run_setters http_setters plain in
    (b.mws ≡ [] ++ concat_map mws_of http_setters)
    × (b.rpc_handlers ≡ [] ++ concat_map rpc_of http_setters)
run_setters-pipeline_example =
    run_setters-pipeline http_setters plain refl (refl, (refl, (refl, (refl, tt))))

abbrev raw : Binding
raw = record plain { serve_func = some 4 }

call_setter_panics_example : (call_setter (sets_tls (some 3)) raw).0 ≡ raw
unfolding call_setter set_tls
call_setter_panics_example =
    call_setter_panics (sets_tls (some 3)) raw
      (sprintf "scaffold: binding %q: %s is mutually exclusive with ServeFunc"
        (str "http" ∷ str "SetTLS" ∷ []))
      refl

-- The store that an Add makes.
abbrev one : BindingStore
one = record {
  kind = test_bindings;
  order = "http" ∷ [];
  by_name = ("http", 0) ∷ [];
  heap = plain ∷ [];
}

-- The second Add panics, and so does the second setter.
abbrev store_calls : List StoreCall
store_calls =
    adds "http" ":80"
    ∷ adds "http" ":81"
    ∷ adds "raw" ":82"
    ∷ configures 1 (serves_func (some 4))
    ∷ configures 1 (sets_tls (some 3))
    ∷ []

run_store-from_empty_example :
    let s = run_store store_calls (no_bindings test_bindings) in
    (ordered_bindings s ≡ map some (refs_from 0 (length s.heap)))
    × ((i : ℕ) (b : Binding) → get_elem? s.heap i ≡ some b → (get b.name s ≡ some i) × IsValid b)
    × ((i j : ℕ) (b c : Binding)
        → get_elem? s.heap i ≡ some b
        → get_elem? s.heap j ≡ some c
        → b.name ≡ c.name
        → i ≡ j)
run_store-from_empty_example = run_store-from_empty test_bindings store_calls

add-get_example :
    let (t, end) = add_binding "http" ":80" one in
    (get "http" one ≢ none → (t ≡ one) × ((r : ℕ) → end ≢ returns r))
    × (get "http" one ≡ none
        → (end ≡ returns 1)
          × (get_elem? t.heap 1 ≡ some (new_binding "http" ":80"))
          × (get "raw" t ≡ (if str_eq "http" "raw" then some 1 else get "raw" one)))
add-get_example = add-get "http" ":80" "raw" one

-- A Clean among Adds, of which the last panics; it has started one of two functions.
raced :
    Reach
      (unused log)
      (after_add 5 (after_run 0 4 (3 ∷ []) (after_begin (after_add 4 (after_add 3 (unused log))))))
unfolding add
raced =
    next
      (next (next (next (next here (adds (unused log) 3)) (adds _ 4)) (begins _))
        (runs _ 0 4 (3 ∷ []) refl))
      (adds _ 5)

Reach-RunsOnce_example :
    RunsOnce
      (after_add 5 (after_run 0 4 (3 ∷ []) (after_begin (after_add 4 (after_add 3 (unused log))))))
Reach-RunsOnce_example = Reach-RunsOnce log _ raced

clean_first_example :
    let (t, err) = clean service ctx state in
    (err ≡ none)
    × (calls t.trace ≡ clean_call 2 ∷ clean_call 1 ∷ [])
    × (t.cleaner.running ≡ false)
    × (t.cleaner.done ≡ true)
    × (t.cleaner.stack ≡ [])
clean_first_example = clean_first service service-IsCivil ctx state refl
