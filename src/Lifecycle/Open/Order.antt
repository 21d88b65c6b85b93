-- ===== src/Lifecycle/Open/Order.antt =====
-- Which bindings openBindings opens, in which order, and how it leaves them.
use scaffold_go.Base.{
  ℕ, ◌≡◌, refl, sym, ap, subst, ◌∙◌, Option, none, some, List, [], ◌∷◌, ◌++◌, set, append-nil,
  append_assoc, eq_of_some, All, All-append,
}
use scaffold_go.Go.{Error, Logger}
use scaffold_go.Context.{Context}
use scaffold_go.Binding.{Binding}
use scaffold_go.System.{Sys, Daemon}
use scaffold_go.Platform.{Platform}
use scaffold_go.Lifecycle.Open.{open_binding, after_open, open_each, open_bindings}
use scaffold_go.Lifecycle.Open.Round.{IsRound, open_binding-IsRound}
use scaffold_go.Lifecycle.Shutdown.Servers.{AreAllocated}
use scaffold_go.Lifecycle.Open.State.{
  set-self-IsOpenAt, listens, attempted, IsOpenAt, set-IsOpenAt, set-allocated,
}

module _ {World : Type 0} (d : Daemon World) (p : Platform World) (fuel : ℕ) (ctx : Context)
    (log : Logger) where
  -- From the state `s`, in which the bindings `before` were open already, the loop over `order` has
  -- gone through `done`, and `rest` is left.
  pub record IsOpening (order before : List ℕ) (s t : Sys World) (opened : List ℕ)
      (result : Option Error) : Type 0 where
    pub done : List ℕ
    pub rest : List ℕ
    pub split : order ≡ done ++ rest
    pub opened_are : opened ≡ before ++ done
    pub tried : listens t.trace ≡ listens s.trace ++ (done ++ attempted result rest)
    pub all_open : All (IsOpenAt d.error_handler t.bindings.heap) opened
    pub complete : result ≡ none → rest ≡ []
    pub stopped : rest ≡ [] → result ≡ none

  All-kept :
      {h k : List Binding} (rs : List ℕ)
      → ((i : ℕ) → IsOpenAt d.error_handler h i → IsOpenAt d.error_handler k i)
      → All (IsOpenAt d.error_handler h) rs
      → All (IsOpenAt d.error_handler k) rs
  All-kept [] kept o = tt
  All-kept (r ∷ rs) kept o = (kept r o.0, All-kept rs kept o.1)

  All-set_allocated :
      (h : List Binding) (r : ℕ) (c : Binding) (rs : List ℕ)
      → AreAllocated h rs
      → AreAllocated (set h r c) rs
  All-set_allocated h r c [] a = tt
  All-set_allocated h r c (i ∷ rs) a = (set-allocated h r i c a.0, All-set_allocated h r c rs a.1)

  -- The loop goes through the bindings in order, and stops at the first that fails.
  open_each-IsOpening :
      (rs before : List ℕ) (s t : Sys World) (opened : List ℕ) (result : Option Error)
      → AreAllocated s.bindings.heap rs
      → All (IsOpenAt d.error_handler s.bindings.heap) before
      → open_each d p fuel ctx log rs before s ≡ some (t, opened, result)
      → IsOpening rs before s t opened result
  unfolding open_each
  open_each-IsOpening [] before s t opened result a o e =
      subst (λ x. IsOpening [] before s x.0 x.1 x.2) (eq_of_some e)
        (record {
          done = [];
          rest = [];
          split = refl;
          opened_are = sym (append-nil before);
          tried = sym (append-nil (listens s.trace));
          all_open = o;
          complete = λ _. refl;
          stopped = λ _. refl;
        })
  open_each-IsOpening (r ∷ rs) before s t opened result a o e =
      after_open-IsOpening (open_binding d p fuel ctx log r s)
        (λ u err round. open_binding-IsRound d p fuel ctx log r s u err a.0 round) e
        (λ u. open_each-IsOpening rs (before ++ r ∷ []) u t opened result)
    where
      after_open-IsOpening :
          (x : Option (Sys World × Option Error))
          → ((u : Sys World) (err : Option Error)
              → x ≡ some (u, err)
              → IsRound d p fuel ctx log r s u err)
          → after_open d p fuel ctx log
              (λ u. open_each d p fuel ctx log rs (before ++ r ∷ []) u)
              before
              x
            ≡ some (t, opened, result)
          → ((u : Sys World)
              → AreAllocated u.bindings.heap rs
              → All (IsOpenAt d.error_handler u.bindings.heap) (before ++ r ∷ [])
              → open_each d p fuel ctx log rs (before ++ r ∷ []) u ≡ some (t, opened, result)
              → IsOpening rs (before ++ r ∷ []) u t opened result)
          → IsOpening (r ∷ rs) before s t opened result
      after_open-IsOpening none round e later = cc
      after_open-IsOpening (some (u, some failed)) round e later =
          subst (λ x. IsOpening (r ∷ rs) before s x.0 x.1 x.2) (eq_of_some e)
            (record {
              done = [];
              rest = r ∷ rs;
              split = refl;
              opened_are = sym (append-nil before);
              tried = (round u (some failed) refl).tried;
              all_open = All-kept before (round u (some failed) refl).kept o;
              complete = λ n. cc;
              stopped = λ n. cc;
            })
      after_open-IsOpening (some (u, none)) round e later =
          let (c, open_c, at_heap) = (round u none refl).opened refl in
          let further =
            later u (rw at_heap (All-set_allocated s.bindings.heap r c rs a.1))
              (rw at_heap (
                All-append (IsOpenAt d.error_handler (set s.bindings.heap r c)) before (r ∷ [])
                  (All-kept before (λ i. set-IsOpenAt d.error_handler s.bindings.heap r i c open_c)
                    o)
                  (set-self-IsOpenAt d.error_handler s.bindings.heap r c a.0 open_c, tt)))
              e in
          record {
            done = r ∷ further.done;
            rest = further.rest;
            split = ap (◌∷◌ r) further.split;
            opened_are = further.opened_are ∙ append_assoc before (r ∷ []) further.done;
            tried =
                further.tried
                ∙ ap (λ l. l ++ (further.done ++ attempted result further.rest))
                    (round u none refl).tried
                ∙ append_assoc (listens s.trace) (r ∷ []) _;
            all_open = further.all_open;
            complete = further.complete;
            stopped = further.stopped;
          }

  -- An openBindings that ends, of bindings that are in the store, listens on them in the order of the
  -- list, once each, and stops at the first failure. It returns exactly those before the failure, all
  -- of them open; without a failure, all.
  pub open_bindings-IsOpening :
      (order : List ℕ) (s t : Sys World) (opened : List ℕ) (result : Option Error)
      → AreAllocated s.bindings.heap order
      → open_bindings d p fuel ctx log order s ≡ some (t, opened, result)
      → IsOpening order [] s t opened result
  unfolding open_bindings
  open_bindings-IsOpening order s t opened result a e =
      open_each-IsOpening order [] s t opened result a tt e
