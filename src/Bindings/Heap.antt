-- ===== src/Bindings/Heap.antt =====
-- A heap of bindings in which one binding has been replaced.
use scaffold_go.Base.{
  ℕ, zero, suc, ◌≡◌, refl, sym, ap, subst, ◌∙◌, some, eq_of_some, List, [], ◌∷◌, map, get_elem?,
  set,
}
use scaffold_go.Binding.{Binding}
use scaffold_go.System.Rely.{SameServer, HeapKept, HeapKept-refl}

SameServer-refl : (b : Binding) → SameServer b b
SameServer-refl b = record { same_name = refl; same_addr = refl; same_srv = refl }

SameServer-sym : {b c : Binding} → SameServer b c → SameServer c b
SameServer-sym e = record {
  same_name = sym e.same_name;
  same_addr = sym e.same_addr;
  same_srv = sym e.same_srv;
}

cons-HeapKept : (x : Binding) (h k : List Binding) → HeapKept h k → HeapKept (x ∷ h) (x ∷ k)
cons-HeapKept x h k kept zero y f =
    (x, refl, subst (SameServer y) (eq_of_some (sym f)) (SameServer-refl y))
cons-HeapKept x h k kept (suc i) y f = kept i y f

-- Replacing a binding by one with the same name and server keeps the heap, seen from either side.
pub set-HeapKept :
    (h : List Binding) (r : ℕ) (b c : Binding)
    → get_elem? h r ≡ some b
    → SameServer b c
    → HeapKept h (set h r c) × HeapKept (set h r c) h
set-HeapKept [] r b c e same = (HeapKept-refl [], HeapKept-refl [])
set-HeapKept (x ∷ h) zero b c e same = (forth, back)
  where
    forth : HeapKept (x ∷ h) (c ∷ h)
    forth zero y f = (c, refl, subst (λ z. SameServer z c) (eq_of_some (sym e ∙ f)) same)
    forth (suc i) y f = HeapKept-refl h i y f

    back : HeapKept (c ∷ h) (x ∷ h)
    back zero y f = (b, e, SameServer-sym (subst (SameServer b) (eq_of_some f) same))
    back (suc i) y f = HeapKept-refl h i y f
set-HeapKept (x ∷ h) (suc r) b c e same =
    let (forth, back) = set-HeapKept h r b c e same in
    (cons-HeapKept x h (set h r c) forth, cons-HeapKept x (set h r c) h back)

pub map-name-set :
    (h : List Binding) (r : ℕ) (b c : Binding)
    → get_elem? h r ≡ some b
    → c.name ≡ b.name
    → map (λ x. x.name) (set h r c) ≡ map (λ x. x.name) h
map-name-set [] r b c e same = refl
map-name-set (x ∷ h) zero b c e same =
    ap (λ n. n ∷ map (λ y. y.name) h) (same ∙ ap (λ y. y.name) (sym (eq_of_some e)))
map-name-set (x ∷ h) (suc r) b c e same = ap (◌∷◌ x.name) (map-name-set h r b c e same)
