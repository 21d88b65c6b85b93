-- ===== src/Config/Filepath/Suffix.antt =====
-- A text with a suffix, and the text without it.
use Prim.Native.String.{◌++◌ as append}
use text.Mathlib.TextLemmas.{nil-append, cons-append, append_cancel_right}
use text.Mathlib.TextPositions.{eq_refl}
use scaffold_go.Base.{
  suc, ◌+◌, ◌-◌, String, ◌≡◌, refl, sym, ap, ap₂, ◌∙◌, Bool, true, false, ◌||◌, Bool-cases, ◌⊎◌,
  inl, inr, str_eq, eq_iff, arith,
}
use scaffold_go.Config.Filepath.{ends_with, count, take, drop_last}

ends_with_self : (t : String) → ends_with t t ≡ true
unfolding ends_with
ends_with_self String.[] = refl
ends_with_self (String.◌∷◌ c s) = rw (eq_refl (String.◌∷◌ c s))

pub ends_with-append : (v t : String) → ends_with (append v t) t ≡ true
unfolding ends_with
ends_with-append String.[] t = ap (λ s. ends_with s t) (nil-append t) ∙ ends_with_self t
ends_with-append (String.◌∷◌ c s) t =
    ap (λ w. ends_with w t) (cons-append c s t) ∙ ground (arith, ends_with-append s t)

str_eq-append : (s t u : String) → str_eq (append s u) (append t u) ≡ str_eq s t
str_eq-append s t u = elim (Bool-cases (str_eq s t)) [
  | inl same ↦
      (eq_iff (append s u) (append t u)).1 (ap (λ w. append w u) ((eq_iff s t).0 same)) ∙ sym same
  | inr other ↦ elim (Bool-cases (str_eq (append s u) (append t u))) [
    | inl joined ↦
        joined
        ∙ sym (
            (eq_iff s t).1
              (append_cancel_right s t u ((eq_iff (append s u) (append t u)).0 joined)))
    | inr differ ↦ differ ∙ sym other
  ]
]

-- A newline behind a text ends it with a carriage return and a newline exactly when the text itself
-- ends with a carriage return.
pub ends_with-newline : (v : String) → ends_with (append v "\n") "\r\n" ≡ ends_with v "\r"
unfolding ends_with
ends_with-newline String.[] = ap (λ s. ends_with s "\r\n") (nil-append "\n")
ends_with-newline (String.◌∷◌ c s) =
    ap (λ w. ends_with w "\r\n") (cons-append c s "\n")
    ∙ ap₂ ◌||◌
        (ap (λ w. str_eq w "\r\n") (sym (cons-append c s "\n"))
          ∙ str_eq-append (String.◌∷◌ c s) "\r" "\n")
        (ends_with-newline s)

count-append : (v t : String) → count (append v t) ≡ count v + count t
count-append String.[] t = ap count (nil-append t) ∙ omega arith
count-append (String.◌∷◌ c s) t =
    ap count (cons-append c s t) ∙ ap suc (count-append s t) ∙ omega arith

take-append : (v t : String) → take (count v) (append v t) ≡ v
take-append String.[] t = refl
take-append (String.◌∷◌ c s) t =
    ap (take (suc (count s))) (cons-append c s t) ∙ ap (String.◌∷◌ c) (take-append s t)

pub drop_last-append : (v t : String) → drop_last (count t) (append v t) ≡ v
drop_last-append v t =
    ap (λ n. take (n - count t) (append v t)) (count-append v t)
    ∙ ap (λ n. take n (append v t)) (omega arith)
    ∙ take-append v t

or-cases : (a b : Bool) → (a || b) ≡ true → (a ≡ true) ⊎ (b ≡ true)
or-cases true b e = inl refl
or-cases false b e = inr e

pub ends_with-return_newline : (v : String) → ends_with v "\r\n" ≡ true → ends_with v "\n" ≡ true
unfolding ends_with
ends_with-return_newline String.[] e = cc
ends_with-return_newline (String.◌∷◌ c s) e =
    elim (or-cases (str_eq (String.◌∷◌ c s) "\r\n") (ends_with s "\r\n") e) [
      | inl whole ↦ ap (λ w. ends_with w "\n") ((eq_iff (String.◌∷◌ c s) "\r\n").0 whole)
      | inr later ↦ ground (arith, ends_with-return_newline s later)
    ]
