-- ===== src/Lifecycle/Shutdown/Servers.antt =====
-- The bindings of a list that runShutdown has to stop, and that steady steps keep them.
use scaffold_go.Base.{
  ℕ, ◌≡◌, refl, ap, Bool, true, false, Option, none, some, List, [], ◌∷◌, get_elem?, is_some,
  if◌then◌else◌, All, Option-cases, inl, inr,
}
use scaffold_go.Binding.{Binding}
use scaffold_go.System.Rely.{HeapKept}

-- The bindings of the list that have an HTTP server.
abbrev pub is_serving : Option Binding → Bool
is_serving none = false
is_serving (some b) = is_some b.srv

abbrev pub has_server : List Binding → ℕ → Bool
has_server h r = is_serving (get_elem? h r)

abbrev pub servers : List Binding → List ℕ → List ℕ
servers h [] = []
servers h (r ∷ rs) = if has_server h r then r ∷ servers h rs else servers h rs

-- The pointers of the list lead to bindings of the heap.
abbrev pub AreAllocated : List Binding → List ℕ → Type 0
AreAllocated h = All λ r. is_some (get_elem? h r) ≡ true

module _ (h k : List Binding) (kept : HeapKept h k) where
  allocated_one : (r : ℕ) → is_some (get_elem? h r) ≡ true → is_some (get_elem? k r) ≡ true
  allocated_one r a = elim (Option-cases (get_elem? h r)) [
    | inl e ↦ cc
    | inr (b, e) ↦ let (c, now, _) = kept r b e in rw now
  ]

  pub allocated-kept : (rs : List ℕ) → AreAllocated h rs → AreAllocated k rs
  allocated-kept [] a = tt
  allocated-kept (r ∷ rs) a = (allocated_one r a.0, allocated-kept rs a.1)

  has_server-kept : (r : ℕ) → is_some (get_elem? h r) ≡ true → has_server k r ≡ has_server h r
  has_server-kept r a = elim (Option-cases (get_elem? h r)) [
    | inl e ↦ cc
    | inr (b, e) ↦ let (c, now, same) = kept r b e in rw (e, now) (ap is_some same.same_srv)
  ]

  pub servers-kept : (rs : List ℕ) → AreAllocated h rs → servers k rs ≡ servers h rs
  servers-kept [] a = refl
  servers-kept (r ∷ rs) a = rw (has_server-kept r a.0, servers-kept rs a.1)
