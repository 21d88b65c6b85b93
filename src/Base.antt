-- ===== src/Base.antt =====
-- Shared names: the libraries', passed on, Boolean tests and the list functions the parts share.
pub use Prim.Native.Nat.{ℕ, zero, suc, ◌+◌, ◌-◌, ◌*◌, ◌≤◌, ◌<◌}
pub use Prim.Native.String.{String}
pub use mathlib.Core.Path.{◌≡◌, refl, sym, ap, ap₂, subst, ◌∙◌}
pub use mathlib.Core.Logic.{◌≢◌, ◌↔◌, ◌⊎◌, inl, inr}
pub use mathlib.Core.Bool.{Bool, true, false, not, ◌&&◌, ◌||◌}
pub use mathlib.Core.Option.{Option, none, some}
pub use mathlib.Core.List.{
  List, [], ◌∷◌, ◌++◌, map, reverse, append-nil, append_assoc, map-append, reverse-cons,
  reverse-append,
}
pub use native.Mathlib.Omega.{arith}
pub use text.Mathlib.Text.{◌==◌ as str_eq}
pub use text.Mathlib.TextEquality.{eq_iff}
use Prim.Native.Nat.{compare, Ordering}

infix 1 if◌then◌else◌
abbrev pub if◌then◌else◌ {ℓ} : {A : Type ℓ} → Bool → A → A → A
if true then x else y = x
if false then x else y = y

abbrev pub ltb : ℕ → ℕ → Bool
ltb a b = elim (compare a b) [ Ordering.lt ↦ true | _ ↦ false ]

infix 50 ◌==◌
abbrev pub ◌==◌ : ℕ → ℕ → Bool
a == b = elim (compare a b) [ Ordering.eq ↦ true | _ ↦ false ]

pub ltb→lt : (a b : ℕ) → ltb a b ≡ true → a < b
ltb→lt a b h = ground arith

pub Bool-cases : (b : Bool) → (b ≡ true) ⊎ (b ≡ false)
Bool-cases true = inl refl
Bool-cases false = inr refl

module _ {ℓ} {A : Type ℓ} where
  pub Option-cases : (o : Option A) → (o ≡ none) ⊎ ((a : A) × (o ≡ some a))
  Option-cases none = inl refl
  Option-cases (some a) = inr (a, refl)

  pub eq_of_some : {a b : A} → some a ≡ some b → a ≡ b
  eq_of_some e = cc

  pub none≢some : {a : A} → ◌≢◌ {A = Option A} none (some a)
  none≢some = cc

  -- `x != nil`
  abbrev pub is_some : Option A → Bool
  is_some none = false
  is_some (some a) = true

  -- `len(xs) > 0`
  abbrev pub is_nonempty : List A → Bool
  is_nonempty [] = false
  is_nonempty (x ∷ xs) = true

  abbrev pub length : List A → ℕ
  length [] = 0
  length (x ∷ xs) = suc (length xs)

  abbrev pub get_elem? : List A → ℕ → Option A
  get_elem? [] i = none
  get_elem? (x ∷ xs) zero = some x
  get_elem? (x ∷ xs) (suc i) = get_elem? xs i

  abbrev pub drop : ℕ → List A → List A
  drop zero xs = xs
  drop (suc n) [] = []
  drop (suc n) (x ∷ xs) = drop n xs

  -- A write out of bounds changes nothing.
  abbrev pub set : List A → ℕ → A → List A
  set [] i v = []
  set (x ∷ xs) zero v = v ∷ xs
  set (x ∷ xs) (suc i) v = x ∷ set xs i v

  pub get_elem?-set :
      (xs : List A) (r i : ℕ) (y z : A)
      → get_elem? (set xs r z) i ≡ some y
      → ((r ≡ i) × (z ≡ y)) ⊎ (get_elem? xs i ≡ some y)
  get_elem?-set [] r i y z e = inr e
  get_elem?-set (x ∷ xs) zero zero y z e = inl (refl, eq_of_some e)
  get_elem?-set (x ∷ xs) zero (suc i) y z e = inr e
  get_elem?-set (x ∷ xs) (suc r) zero y z e = inr e
  get_elem?-set (x ∷ xs) (suc r) (suc i) y z e = elim (get_elem?-set xs r i y z e) [
    | inl (same, made) ↦ inl (ap suc same, made)
    | inr old ↦ inr old
  ]

  abbrev pub sum_of : (A → ℕ) → List A → ℕ
  sum_of f [] = 0
  sum_of f (x ∷ xs) = f x + sum_of f xs

  -- A write within bounds exchanges one summand.
  pub sum_of-set :
      (f : A → ℕ) (xs : List A) (i : ℕ) (y z : A)
      → get_elem? xs i ≡ some y
      → (others : ℕ) × (sum_of f xs ≡ f y + others) × (sum_of f (set xs i z) ≡ f z + others)
  sum_of-set f [] i y z e = absurd (none≢some e)
  sum_of-set f (x ∷ xs) zero y z e = (sum_of f xs, ap (λ a. f a + sum_of f xs) (eq_of_some e), refl)
  sum_of-set f (x ∷ xs) (suc i) y z e =
      let (others, before, after) = sum_of-set f xs i y z e in
      (f x + others, omega (arith, before), omega (arith, after))

  pub length-append : (xs ys : List A) → length (xs ++ ys) ≡ length xs + length ys
  length-append [] ys = omega arith
  length-append (x ∷ xs) ys = omega (arith, length-append xs ys)

module _ {ℓ κ} {A : Type ℓ} (P : A → Type κ) where
  -- Every item of the list has the property.
  abbrev pub All : List A → Type κ
  All [] = Unit
  All (x ∷ xs) = P x × All xs

  pub All-append : (xs ys : List A) → All xs → All ys → All (xs ++ ys)
  All-append [] ys h k = k
  All-append (x ∷ xs) ys h k = (h.0, All-append xs ys h.1 k)

  pub All-reverse : (xs : List A) → All xs → All (reverse xs)
  All-reverse [] h = h
  All-reverse (x ∷ xs) h =
      rw (reverse-cons x xs) (All-append (reverse xs) (x ∷ []) (All-reverse xs h.1) (h.0, tt))
