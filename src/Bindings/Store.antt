-- ===== src/Bindings/Store.antt =====
-- What the store of bindings guarantees (bindings.go): names are unique, Get finds what Add made, and
-- iteration is in the order of the Adds.
use scaffold_go.Base.{
  ℕ, zero, suc, String, ◌+◌, ◌≡◌, refl, sym, ap, ap₂, ◌∙◌, ◌⊎◌, inl, inr, ◌≢◌, none, some, List, [],
  ◌∷◌, ◌++◌, map, map-append, length, get_elem?, set, str_eq, eq_iff, eq_of_some, arith,
  Option-cases, Bool-cases, if◌then◌else◌,
}
use scaffold_go.Go.{returns}
use scaffold_go.Binding.{Binding, new_binding}
use scaffold_go.Binding.Setters.{Setter, call_setter, call_setter-frame}
use scaffold_go.System.{BindingStore}
use scaffold_go.System.Rely.{SameServer, HeapKept}
use scaffold_go.Bindings.Heap.{set-HeapKept, map-name-set}
use scaffold_go.Bindings.{lookup, add, get, ordered_bindings, configure}

-- The order lists the heap's names, and the map leads each name to its own binding and nowhere else.
pub record IsWellFormed (s : BindingStore) : Type 0 where
  pub ordered : s.order ≡ map (λ b. b.name) s.heap
  pub mapped :
      (i : ℕ) (b : Binding) → get_elem? s.heap i ≡ some b → lookup b.name s.by_name ≡ some i
  pub bound :
      (n : String) (r : ℕ)
      → lookup n s.by_name ≡ some r
      → (b : Binding) × (get_elem? s.heap r ≡ some b) × (b.name ≡ n)

-- k, k + 1, … : n references.
abbrev pub refs_from : ℕ → ℕ → List ℕ
refs_from k zero = []
refs_from k (suc n) = k ∷ refs_from (suc k) n

lookups-heap :
    (m : List (String × ℕ)) (k : ℕ) (h : List Binding)
    → ((i : ℕ) (b : Binding) → get_elem? h i ≡ some b → lookup b.name m ≡ some (k + i))
    → map (λ n. lookup n m) (map (λ b. b.name) h) ≡ map some (refs_from k (length h))
lookups-heap m k [] f = refl
lookups-heap m k (b ∷ h) f =
    ap₂ ◌∷◌ (f 0 b refl ∙ ap some (omega arith))
      (lookups-heap m (suc k) h λ i c e. f (suc i) c e ∙ ap some (omega arith))

-- Iteration over a well-formed store yields every binding once, none of them nil, in the order in
-- which they were added.
pub ordered_bindings_lem :
    (s : BindingStore)
    → IsWellFormed s
    → ordered_bindings s ≡ map some (refs_from 0 (length s.heap))
unfolding ordered_bindings
ordered_bindings_lem s w =
    ap (map (λ n. lookup n s.by_name)) w.ordered
    ∙ lookups-heap s.by_name 0 s.heap λ i b e. w.mapped i b e ∙ ap some (omega arith)

-- No two bindings of a well-formed store share a name.
pub names_unique :
    (s : BindingStore) (i j : ℕ) (b c : Binding)
    → IsWellFormed s
    → get_elem? s.heap i ≡ some b
    → get_elem? s.heap j ≡ some c
    → b.name ≡ c.name
    → i ≡ j
names_unique s i j b c w at_i at_j same =
    eq_of_some (sym (w.mapped i b at_i) ∙ ap (λ n. lookup n s.by_name) same ∙ w.mapped j c at_j)

pub get_elem?-last {ℓ} :
    {A : Type ℓ} (xs : List A) (x y : A) (i : ℕ)
    → get_elem? (xs ++ x ∷ []) i ≡ some y
    → (get_elem? xs i ≡ some y) ⊎ ((i ≡ length xs) × (x ≡ y))
get_elem?-last [] x y zero e = inr (refl, cc)
get_elem?-last [] x y (suc i) e = cc
get_elem?-last (z ∷ xs) x y zero e = inl e
get_elem?-last (z ∷ xs) x y (suc i) e = elim (get_elem?-last xs x y i e) [
  | inl h ↦ inl h
  | inr (h, k) ↦ inr (ap suc h, k)
]

pub get_elem?-append_left {ℓ} :
    {A : Type ℓ} (xs ys : List A) (i : ℕ) (y : A)
    → get_elem? xs i ≡ some y
    → get_elem? (xs ++ ys) i ≡ some y
get_elem?-append_left [] ys i y e = cc
get_elem?-append_left (x ∷ xs) ys zero y e = e
get_elem?-append_left (x ∷ xs) ys (suc i) y e = get_elem?-append_left xs ys i y e

get_elem?-append_self {ℓ} :
    {A : Type ℓ} (xs : List A) (x : A) → get_elem? (xs ++ x ∷ []) (length xs) ≡ some x
get_elem?-append_self [] x = refl
get_elem?-append_self (y ∷ xs) x = get_elem?-append_self xs x

-- Add either panics, exactly when the name is taken, and changes nothing; or it returns a fresh
-- pointer, under which Get finds the new binding from then on, and every other name is as it was.
pub add-get :
    (name addr n : String) (s : BindingStore)
    → let (t, end) = add name addr s in
      (get name s ≢ none → (t ≡ s) × ((r : ℕ) → end ≢ returns r))
      × (get name s ≡ none
          → (end ≡ returns (length s.heap))
            × (get_elem? t.heap (length s.heap) ≡ some (new_binding name addr))
            × (get n t ≡ (if str_eq name n then some (length s.heap) else get n s)))
unfolding add get lookup
add-get name addr n s = (
  λ h. (ground arith, λ r. ground arith),
  λ e. ground (arith, get_elem?-append_self s.heap (new_binding name addr)),
)

new_binding-name : (name addr : String) → (new_binding name addr).name ≡ name
unfolding new_binding
new_binding-name name addr = refl

-- The store after a successful Add, field by field.
module _ (name addr : String) (s : BindingStore) (w : IsWellFormed s)
    (free : lookup name s.by_name ≡ none) where
  abbrev added : Binding
  added = new_binding name addr

  abbrev extended : List (String × ℕ)
  extended = (name, length s.heap) ∷ s.by_name

  added-ordered : s.order ++ name ∷ [] ≡ map (λ b. b.name) (s.heap ++ added ∷ [])
  added-ordered =
      ap (λ l. l ++ name ∷ []) w.ordered
      ∙ ap (λ n. map (λ b. b.name) s.heap ++ n ∷ []) (sym (new_binding-name name addr))
      ∙ sym (map-append (λ b. b.name) s.heap (added ∷ []))

  added-mapped :
      (i : ℕ) (b : Binding)
      → get_elem? (s.heap ++ added ∷ []) i ≡ some b
      → lookup b.name extended ≡ some i
  unfolding lookup
  added-mapped i b e = elim (get_elem?-last s.heap added b i e) [
    | inl old ↦ ground (arith, w.mapped i b old, eq_iff name b.name)
    | inr (at_end, same) ↦
        ground
          (arith, new_binding-name name addr, eq_iff name b.name, ap (λ (c : Binding). c.name) same)
  ]

  added-bound :
      (n : String) (r : ℕ)
      → lookup n extended ≡ some r
      → (b : Binding) × (get_elem? (s.heap ++ added ∷ []) r ≡ some b) × (b.name ≡ n)
  unfolding lookup
  added-bound n r e = elim (Bool-cases (str_eq name n)) [
    | inl same ↦ (
      added,
      ground (arith, get_elem?-append_self s.heap added),
      new_binding-name name addr ∙ (eq_iff name n).0 same,
    )
    | inr other ↦
        let (b, at_r, named) = w.bound n r (rw (other, lookup) at e) in
        (b, get_elem?-append_left s.heap (added ∷ []) r b at_r, named)
  ]

-- Add keeps the store well-formed, on both branches.
pub add-IsWellFormed :
    (name addr : String) (s : BindingStore) → IsWellFormed s → IsWellFormed (add name addr s).0
unfolding add
add-IsWellFormed name addr s w = elim (Option-cases (lookup name s.by_name)) [
  | inl free ↦
      rw (free, add)
        (record {
          ordered = added-ordered name addr s w free;
          mapped = added-mapped name addr s w free;
          bound = added-bound name addr s w free;
        })
  | inr (r, taken) ↦ rw (taken, add) w
]

pub call_setter-SameServer : (c : Setter) (b : Binding) → SameServer b (call_setter c b).0
call_setter-SameServer c b =
    let (n, _, a, v, _) = call_setter-frame c b in
    record { same_name = n; same_addr = a; same_srv = v }

set-IsWellFormed :
    (r : ℕ) (s : BindingStore) (b c : Binding)
    → get_elem? s.heap r ≡ some b
    → SameServer b c
    → IsWellFormed s
    → IsWellFormed (record s { heap = set s.heap r c })
set-IsWellFormed r s b c at_r same w = record {
  ordered = w.ordered ∙ sym (map-name-set s.heap r b c at_r same.same_name);
  mapped = λ i x e.
      let (y, at_i, named) = kept.1 i x e in
      ap (λ n. lookup n s.by_name) (sym named.same_name) ∙ w.mapped i y at_i;
  bound = λ n i e.
      let (x, at_i, named) = w.bound n i e in
      let (y, now, same_y) = kept.0 i x at_i in (y, now, same_y.same_name ∙ named);
}
  where
    kept : HeapKept s.heap (set s.heap r c) × HeapKept (set s.heap r c) s.heap
    kept = set-HeapKept s.heap r b c at_r same

-- A setter called through any pointer, valid or nil, panicking or not, keeps the store well-formed.
pub configure-IsWellFormed :
    (r : ℕ) (c : Setter) (s : BindingStore) → IsWellFormed s → IsWellFormed (configure r c s).0
unfolding configure
configure-IsWellFormed r c s w = elim (Option-cases (get_elem? s.heap r)) [
  | inl missing ↦ rw (missing, configure) w
  | inr (b, at_r) ↦
      rw (at_r, configure) (set-IsWellFormed r s b _ at_r (call_setter-SameServer c b) w)
]
