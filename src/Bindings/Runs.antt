-- ===== src/Bindings/Runs.antt =====
-- What holds of a store of bindings after any sequence of the service's calls (bindings.go,
-- binding.go).
use scaffold_go.Base.{
  ℕ, String, ◌≡◌, refl, subst, inl, inr, some, List, [], ◌∷◌, ◌++◌, map, length, get_elem?,
  get_elem?-set, Option-cases,
}
use scaffold_go.Binding.{Binding, new_binding}
use scaffold_go.Binding.Setters.{
  Setter, call_setter, IsValid, new_binding-IsValid, call_setter-IsValid,
}
use scaffold_go.System.{BindingsKind, BindingStore}
use scaffold_go.Bindings.{lookup, add, get, ordered_bindings, configure}
use scaffold_go.Bindings.Store.{
  IsWellFormed, refs_from, get_elem?-last, ordered_bindings_lem, names_unique, add-IsWellFormed,
  configure-IsWellFormed,
}

-- A call of Add, with the address that it comes down to, or of a setter through a pointer. One that
-- panics may have been recovered.
pub data StoreCall : Type 0 where
  adds : String → String → StoreCall
  configures : ℕ → Setter → StoreCall

unfoldable pub run_store : List StoreCall → BindingStore → BindingStore
unfolding add configure
run_store [] s = s
run_store (adds name addr ∷ cs) s = run_store cs (add name addr s).0
run_store (configures r c ∷ cs) s = run_store cs (configure r c s).0

abbrev pub no_bindings : BindingsKind → BindingStore
no_bindings kind = record { kind = kind; order = []; by_name = []; heap = [] }

-- Every binding of the store has a valid configuration.
abbrev AllValid : BindingStore → Type 0
AllValid s = (i : ℕ) (b : Binding) → get_elem? s.heap i ≡ some b → IsValid b

add-AllValid : (name addr : String) (s : BindingStore) → AllValid s → AllValid (add name addr s).0
unfolding add
add-AllValid name addr s valid = elim (Option-cases (lookup name s.by_name)) [
  | inl free ↦ rw (free, add) (added)
  | inr (r, taken) ↦ rw (taken, add) valid
]
  where
    added :
        (i : ℕ) (b : Binding)
        → get_elem? (s.heap ++ new_binding name addr ∷ []) i ≡ some b
        → IsValid b
    added i b e = elim (get_elem?-last s.heap (new_binding name addr) b i e) [
      | inl old ↦ valid i b old
      | inr (_, same) ↦ subst IsValid same (new_binding-IsValid name addr)
    ]

configure-AllValid :
    (r : ℕ) (c : Setter) (s : BindingStore) → AllValid s → AllValid (configure r c s).0
unfolding configure
configure-AllValid r c s valid = elim (Option-cases (get_elem? s.heap r)) [
  | inl missing ↦ rw (missing, configure) valid
  | inr (b, at_r) ↦
      rw (at_r, configure)
        (λ i x e. elim (get_elem?-set s.heap r i x (call_setter c b).0 e) [
          | inl (_, same) ↦ subst IsValid same (call_setter-IsValid c b (valid r b at_r))
          | inr old ↦ valid i x old
        ])
]

run_store-kept :
    (cs : List StoreCall) (s : BindingStore)
    → IsWellFormed s
    → AllValid s
    → IsWellFormed (run_store cs s) × AllValid (run_store cs s)
unfolding run_store
run_store-kept [] s w v = (w, v)
run_store-kept (adds name addr ∷ cs) s w v =
    run_store-kept cs (add name addr s).0 (add-IsWellFormed name addr s w)
      (add-AllValid name addr s v)
run_store-kept (configures r c ∷ cs) s w v =
    run_store-kept cs (configure r c s).0 (configure-IsWellFormed r c s w)
      (configure-AllValid r c s v)

pub no_bindings-IsWellFormed : (kind : BindingsKind) → IsWellFormed (no_bindings kind)
unfolding lookup
no_bindings-IsWellFormed kind = record { ordered = refl; mapped = λ i b e. cc; bound = λ n r e. cc }

-- After any sequence of Adds and setter calls on an empty store, panicking ones included, iteration
-- yields every binding once, in the order of the Adds; Get finds each binding under its name, no two
-- have one name, and every binding has a valid configuration.
pub run_store-from_empty :
    (kind : BindingsKind) (cs : List StoreCall)
    → let s = run_store cs (no_bindings kind) in
      (ordered_bindings s ≡ map some (refs_from 0 (length s.heap)))
      × ((i : ℕ) (b : Binding) → get_elem? s.heap i ≡ some b → (get b.name s ≡ some i) × IsValid b)
      × ((i j : ℕ) (b c : Binding)
          → get_elem? s.heap i ≡ some b
          → get_elem? s.heap j ≡ some c
          → b.name ≡ c.name
          → i ≡ j)
unfolding get
run_store-from_empty kind cs =
    let s = run_store cs (no_bindings kind) in
    let (w, v) =
      run_store-kept cs (no_bindings kind) (no_bindings-IsWellFormed kind) (λ i b e. cc) in
    (
      ordered_bindings_lem s w,
      λ i b e. (w.mapped i b e, v i b e),
      λ i j b c at_i at_j same. names_unique s i j b c w at_i at_j same,
    )
