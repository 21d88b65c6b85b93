-- ===== src/Config/Filepath/Child.antt =====
-- A path is joined with the name of a file.
use Prim.Native.Char.{Char, code}
use Prim.Native.String.{◌++◌ as append}
use text.Mathlib.TextLemmas.{nil-append, cons-append}
use scaffold_go.Base.{
  subst, String, ◌≡◌, refl, sym, ap, ap₂, ◌∙◌, Bool, true, false, ◌||◌, Bool-cases, inl, inr, List,
  [], ◌∷◌, ◌++◌, reverse, reverse-cons, ◌==◌, str_eq, eq_iff, is_nonempty, arith,
}
use scaffold_go.Config.Filepath.{
  has_separator, onto_first, split, is_rooted, visit, visit_each, elements, render, clean,
  join_path,
}

-- The name of a file in a directory: one element of a path, and neither `.` nor `..`.
pub record IsFileName (key : String) : Type 0 where
  pub not_empty : str_eq key "" ≡ false
  pub not_dot : str_eq key "." ≡ false
  pub not_dots : str_eq key ".." ≡ false
  pub one_element : has_separator key ≡ false

or-false : (a b : Bool) → (a || b) ≡ false → (a ≡ false) × (b ≡ false)
or-false a b e = ground arith

split-name : (key : String) → has_separator key ≡ false → split key ≡ key ∷ []
unfolding has_separator split
split-name String.[] e = refl
split-name (String.◌∷◌ c s) e =
    let (not_here, not_there) = or-false (code c == b'/') (has_separator s) e in
    rw (not_here, split-name s not_there)

split-nonempty : (s : String) → is_nonempty (split s) ≡ true
unfolding split
split-nonempty String.[] = refl
split-nonempty (String.◌∷◌ c s) = elim (Bool-cases (code c == b'/')) [
  | inl here ↦ rw here
  | inr there ↦ rw there (onto_first-nonempty c (split s))
]
  where
    onto_first-nonempty : (c : Char) (l : List String) → is_nonempty (onto_first c l) ≡ true
    onto_first-nonempty c [] = refl
    onto_first-nonempty c (v ∷ vs) = refl

onto_first-append :
    (c : Char) (s : String) (ws : List String)
    → onto_first c (split s ++ ws) ≡ onto_first c (split s) ++ ws
unfolding split
onto_first-append c s ws = go (split s) (split-nonempty s)
  where
    go : (l : List String) → is_nonempty l ≡ true → onto_first c (l ++ ws) ≡ onto_first c l ++ ws
    go [] e = cc
    go (v ∷ vs) e = refl

split-separator : (key : String) → split (append "/" key) ≡ "" ∷ split key
unfolding split
split-separator key =
    ap split (cons-append "/" String.[] key ∙ ap (String.◌∷◌ "/") (nil-append key))

split-append : (dir key : String) → split (append dir (append "/" key)) ≡ split dir ++ split key
unfolding split
split-append String.[] key = ap split (nil-append (append "/" key)) ∙ split-separator key
split-append (String.◌∷◌ c s) key =
    ap split (cons-append c s (append "/" key)) ∙ (elim (Bool-cases (code c == b'/')) [
      | inl here ↦ rw here (ap (◌∷◌ "") (split-append s key))
      | inr there ↦
          rw there (ap (onto_first c) (split-append s key) ∙ onto_first-append c s (split key))
    ])

visit_each-append :
    (rooted : Bool) (kept vs : List String) (w : String)
    → visit_each rooted kept (vs ++ w ∷ []) ≡ visit rooted (visit_each rooted kept vs) w
visit_each-append rooted kept [] w = refl
visit_each-append rooted kept (v ∷ vs) w = visit_each-append rooted (visit rooted kept v) vs w

visit-name :
    (rooted : Bool) (kept : List String) (w : String)
    → IsFileName w
    → visit rooted kept w ≡ w ∷ kept
visit-name rooted kept w h = rw (h.not_empty, h.not_dot, h.not_dots)

is_rooted-append :
    (dir key : String) → str_eq dir "" ≡ false → is_rooted (append dir key) ≡ is_rooted dir
is_rooted-append String.[] key e = cc
is_rooted-append (String.◌∷◌ c s) key e = ap is_rooted (cons-append c s key)

elements-append :
    (dir key : String)
    → str_eq dir "" ≡ false
    → IsFileName key
    → elements (append dir (append "/" key)) ≡ elements dir ++ key ∷ []
unfolding elements
elements-append dir key e h =
    ap₂ (λ r l. reverse (visit_each r [] l)) (is_rooted-append dir (append "/" key) e)
      (split-append dir key ∙ ap (λ l. split dir ++ l) (split-name key h.one_element))
    ∙ ap reverse (
        visit_each-append (is_rooted dir) [] (split dir) key
        ∙ visit-name (is_rooted dir) (visit_each (is_rooted dir) [] (split dir)) key h)
    ∙ reverse-cons key (visit_each (is_rooted dir) [] (split dir))

-- A name with no separator in it is no rooted path.
is_rooted-name : (key : String) → has_separator key ≡ false → is_rooted key ≡ false
unfolding has_separator
is_rooted-name String.[] e = refl
is_rooted-name (String.◌∷◌ c s) e = (or-false (code c == b'/') (has_separator s) e).0

elements-name : (key : String) → IsFileName key → elements key ≡ key ∷ []
unfolding elements
elements-name key h =
    ap₂ (λ r l. reverse (visit_each r [] l)) (is_rooted-name key h.one_element)
      (split-name key h.one_element)
    ∙ ap reverse (visit-name false [] key h)

pub clean-name : (key : String) → IsFileName key → clean key ≡ key
unfolding clean
clean-name key h = ap₂ render (is_rooted-name key h.one_element) (elements-name key h)

-- Joined with a file's name, the path comes down to the directory's own elements and the name.
pub join_path-child :
    (dir key : String)
    → IsFileName key
    → join_path dir key ≡ render (is_rooted dir) (elements dir ++ key ∷ [])
unfolding join_path clean elements
join_path-child dir key h = elim (Bool-cases (str_eq dir "")) [
  | inl empty ↦
      let e : dir ≡ "" = (eq_iff dir "").0 empty in
      subst (λ d. join_path d key ≡ render (is_rooted d) (elements d ++ key ∷ [])) (sym e)
        (rw h.not_empty (clean-name key h))
  | inr given ↦
      rw given
        (ap₂ render (is_rooted-append dir (append "/" key) given) (elements-append dir key given h))
]
