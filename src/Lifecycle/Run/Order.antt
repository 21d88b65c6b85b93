-- ===== src/Lifecycle/Run/Order.antt =====
-- The order in which a well-formed store of bindings is opened.
use scaffold_go.Base.{
  ℕ, zero, suc, ◌+◌, ◌≤◌, ◌≡◌, refl, ap, ◌∙◌, ◌⊎◌, inl, inr, true, some, List, [], ◌∷◌, map, length,
  get_elem?, is_some, arith,
}
use scaffold_go.System.{BindingsKind, default_bindings, test_bindings, third_party, BindingStore}
use scaffold_go.Binding.{Binding}
use scaffold_go.Platform.{ok, err}
use scaffold_go.Bindings.{ordered_bindings}
use scaffold_go.Bindings.Store.{IsWellFormed, refs_from, ordered_bindings_lem}
use scaffold_go.Lifecycle.Options.{
  pointers, unsupported_bindings, ordered_of_kind, ordered_from_bindings,
}
use scaffold_go.Lifecycle.Shutdown.Servers.{AreAllocated}

pointers-some : (rs : List ℕ) → pointers (map some rs) ≡ rs
pointers-some [] = refl
pointers-some (r ∷ rs) = ap (◌∷◌ r) (pointers-some rs)

allocated_below : (h : List Binding) (i : ℕ) → suc i ≤ length h → is_some (get_elem? h i) ≡ true
allocated_below [] i le = absurd (omega arith)
allocated_below (b ∷ h) zero le = refl
allocated_below (b ∷ h) (suc i) le = allocated_below h i (omega arith)

refs_from-AreAllocated :
    (h : List Binding) (k n : ℕ) → k + n ≤ length h → AreAllocated h (refs_from k n)
refs_from-AreAllocated h k zero le = tt
refs_from-AreAllocated h k (suc n) le =
    (allocated_below h k (omega arith), refs_from-AreAllocated h (suc k) n (omega arith))

-- Every binding of the store, in the order in which they were added.
abbrev pub order_of : BindingStore → List ℕ
order_of b = refs_from 0 (length b.heap)

pub order_of-AreAllocated : (b : BindingStore) → AreAllocated b.heap (order_of b)
order_of-AreAllocated b = refs_from-AreAllocated b.heap 0 (length b.heap) (omega arith)

-- Only a store that the package does not know is refused.
pub ordered_from_bindings-cases :
    (b : BindingStore)
    → IsWellFormed b
    → (ordered_from_bindings b ≡ err unsupported_bindings)
      ⊎ (ordered_from_bindings b ≡ ok (order_of b))
unfolding ordered_from_bindings
ordered_from_bindings-cases b w = of_kind b.kind
  where
    all : pointers (ordered_bindings b) ≡ order_of b
    all = ap pointers (ordered_bindings_lem b w) ∙ pointers-some (order_of b)

    of_kind :
        (kind : BindingsKind)
        → (ordered_of_kind kind b ≡ err unsupported_bindings)
          ⊎ (ordered_of_kind kind b ≡ ok (order_of b))
    of_kind (third_party n) = inl refl
    of_kind (default_bindings a) = inr (ap ok all)
    of_kind test_bindings = inr (ap ok all)
