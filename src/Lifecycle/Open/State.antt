-- ===== src/Lifecycle/Open/State.antt =====
-- The bindings on which openBindings listens, as its trace shows them, and what it leaves of each.
use scaffold_go.Base.{
  ℕ, zero, suc, ◌≡◌, refl, sym, ap, subst, ◌∙◌, true, Option, none, some, List, [], ◌∷◌, ◌++◌,
  get_elem?, set, is_some, append-nil, append_assoc, eq_of_some, inl, inr, ◌⊎◌,
}
use scaffold_go.Go.{Error, LogRecord}
use scaffold_go.Http.{Handler}
use scaffold_go.Binding.{Binding}
use scaffold_go.Binding.Dispatch.{build_handler, new_http_server}
use scaffold_go.System.{
  Event, logged, called, Call, on_start_call, on_stop_call, callback_call, clean_call, listen_call,
  serve_call, shutdown_call,
}

abbrev pub listen_of : Call → List ℕ
listen_of (listen_call r) = r ∷ []
listen_of (on_start_call ctx) = []
listen_of (on_stop_call ctx) = []
listen_of (callback_call phase fn) = []
listen_of (clean_call fn) = []
listen_of (serve_call r mode) = []
listen_of (shutdown_call r ctx) = []

-- The bindings on which `net.Listen` was tried, in order.
abbrev pub listens : List Event → List ℕ
listens [] = []
listens (logged r ∷ es) = listens es
listens (called c ∷ es) = listen_of c ++ listens es

listens-append : (es fs : List Event) → listens (es ++ fs) ≡ listens es ++ listens fs
listens-append [] fs = refl
listens-append (logged r ∷ es) fs = listens-append es fs
listens-append (called c ∷ es) fs =
    ap (λ l. listen_of c ++ l) (listens-append es fs)
    ∙ sym (append_assoc (listen_of c) (listens es) (listens fs))

pub listens-logged : (es : List Event) (r : LogRecord) → listens (es ++ logged r ∷ []) ≡ listens es
listens-logged es r = listens-append es (logged r ∷ []) ∙ append-nil (listens es)

pub listens-called :
    (es : List Event) (c : Call) → listens (es ++ called c ∷ []) ≡ listens es ++ listen_of c
listens-called es c =
    listens-append es (called c ∷ []) ∙ ap (λ l. listens es ++ l) (append-nil (listen_of c))

-- The binding that a loop which failed was at: the first of those that it has not opened.
abbrev pub attempted : Option Error → List ℕ → List ℕ
attempted none rest = []
attempted (some e) [] = []
attempted (some e) (r ∷ rest) = r ∷ []

module _ (serve : ℕ → Handler) where
  -- An opened binding has an address; an HTTP one has its composed handler, and a server for it.
  pub record IsOpen (b : Binding) : Type 0 where
    pub has_addr : is_some b.addr ≡ true
    pub composed : b.serve_func ≡ none → b.final_handler ≡ some (build_handler serve b)
    pub served : b.serve_func ≡ none → b.srv ≡ some (new_http_server b)

  pub record IsOpenAt (h : List Binding) (r : ℕ) : Type 0 where
    pub binding : Binding
    pub found : get_elem? h r ≡ some binding
    pub is_open : IsOpen binding

  -- A binding that is replaced by an open one leaves the open ones open.
  pub set-IsOpenAt :
      (h : List Binding) (r i : ℕ) (c : Binding) → IsOpen c → IsOpenAt h i → IsOpenAt (set h r c) i
  set-IsOpenAt [] r i c open_c o = o
  set-IsOpenAt (x ∷ h) zero zero c open_c o = record { binding = c; found = refl; is_open = open_c }
  set-IsOpenAt (x ∷ h) zero (suc i) c open_c o = record {
    binding = o.binding;
    found = o.found;
    is_open = o.is_open;
  }
  set-IsOpenAt (x ∷ h) (suc r) zero c open_c o = record {
    binding = o.binding;
    found = o.found;
    is_open = o.is_open;
  }
  set-IsOpenAt (x ∷ h) (suc r) (suc i) c open_c o =
      let deeper =
        set-IsOpenAt h r i c open_c
          (record { binding = o.binding; found = o.found; is_open = o.is_open }) in
      record { binding = deeper.binding; found = deeper.found; is_open = deeper.is_open }

  set-at-IsOpenAt :
      (h : List Binding) (r i : ℕ) (b c : Binding)
      → get_elem? h r ≡ some b
      → (IsOpen b → IsOpen c)
      → IsOpenAt h i
      → IsOpenAt (set h r c) i
  set-at-IsOpenAt [] r i b c at_r keeps o = o
  set-at-IsOpenAt (x ∷ h) zero zero b c at_r keeps o = record {
    binding = c;
    found = refl;
    is_open = keeps (subst IsOpen (eq_of_some (sym o.found ∙ at_r)) o.is_open);
  }
  set-at-IsOpenAt (x ∷ h) zero (suc i) b c at_r keeps o = record {
    binding = o.binding;
    found = o.found;
    is_open = o.is_open;
  }
  set-at-IsOpenAt (x ∷ h) (suc r) zero b c at_r keeps o = record {
    binding = o.binding;
    found = o.found;
    is_open = o.is_open;
  }
  set-at-IsOpenAt (x ∷ h) (suc r) (suc i) b c at_r keeps o =
      let deeper =
        set-at-IsOpenAt h r i b c at_r keeps
          (record { binding = o.binding; found = o.found; is_open = o.is_open }) in
      record { binding = deeper.binding; found = deeper.found; is_open = deeper.is_open }

  pub replaced-IsOpenAt :
      (h k : List Binding) (r : ℕ) (c : Binding)
      → k ≡ set h r c
      → IsOpen c
      → (i : ℕ) → IsOpenAt h i
      → IsOpenAt k i
  replaced-IsOpenAt h k r c e open_c i o =
      subst (λ l. IsOpenAt l i) (sym e) (set-IsOpenAt h r i c open_c o)

  pub recomposed-IsOpenAt :
      (h k : List Binding) (r : ℕ) (b c : Binding)
      → k ≡ set h r c
      → get_elem? h r ≡ some b
      → (IsOpen b → IsOpen c)
      → (i : ℕ) → IsOpenAt h i
      → IsOpenAt k i
  recomposed-IsOpenAt h k r b c e at_r keeps i o =
      subst (λ l. IsOpenAt l i) (sym e) (set-at-IsOpenAt h r i b c at_r keeps o)

  pub set-self-IsOpenAt :
      (h : List Binding) (r : ℕ) (c : Binding)
      → is_some (get_elem? h r) ≡ true
      → IsOpen c
      → IsOpenAt (set h r c) r
  set-self-IsOpenAt [] r c a open_c = cc
  set-self-IsOpenAt (x ∷ h) zero c a open_c = record { binding = c; found = refl; is_open = open_c }
  set-self-IsOpenAt (x ∷ h) (suc r) c a open_c =
      let deeper = set-self-IsOpenAt h r c a open_c in
      record { binding = deeper.binding; found = deeper.found; is_open = deeper.is_open }

pub set-allocated :
    (h : List Binding) (r i : ℕ) (c : Binding)
    → is_some (get_elem? h i) ≡ true
    → is_some (get_elem? (set h r c) i) ≡ true
set-allocated [] r i c a = a
set-allocated (x ∷ h) zero zero c a = refl
set-allocated (x ∷ h) zero (suc i) c a = a
set-allocated (x ∷ h) (suc r) zero c a = a
set-allocated (x ∷ h) (suc r) (suc i) c a = set-allocated h r i c a

pub set-set : (h : List Binding) (r : ℕ) (b c : Binding) → set (set h r b) r c ≡ set h r c
set-set [] r b c = refl
set-set (x ∷ h) zero b c = refl
set-set (x ∷ h) (suc r) b c = ap (◌∷◌ x) (set-set h r b c)

pub wait-cases :
    {World : Type 0}
    → (x : Option (World × Option Error))
    → (x ≡ none)
      ⊎ (((w : World) × (x ≡ some (w, none)))
          ⊎ ((w : World) × (failed : Error) × (x ≡ some (w, some failed))))
wait-cases none = inl refl
wait-cases (some (w, none)) = inr (inl (w, refl))
wait-cases (some (w, some failed)) = inr (inr (w, failed, refl))
