-- ===== src/Api/Cost.antt =====
-- What the calls of a service add to the callbacks that are registered.
use scaffold_go.Base.{ℕ, suc, String, ◌+◌, ◌≤◌, ◌≡◌, Option, List, [], ◌∷◌, length-append, arith}
use scaffold_go.Go.{Error}
use scaffold_go.Context.{Context}
use scaffold_go.System.{Sys}
use scaffold_go.Http.{Handler}
use scaffold_go.Net.{DialAddr}
use scaffold_go.Platform.{Platform}
use scaffold_go.Lifecycle.Callbacks.{add_on_listen_ready, add_before_shutdown}
use scaffold_go.Lifecycle.Callbacks.Cost.{load}
use scaffold_go.Lifecycle.Run.{IsBounded}
use scaffold_go.Api.{
  ApiCall, adds_binding, configures_binding, adds_clean_up, adds_on_listen_ready,
  adds_before_shutdown, Script, call_api, call_api_each, perform, scripted,
}

-- The callbacks that the calls register.
abbrev pub registrations : List ApiCall → ℕ
registrations [] = 0
registrations (adds_on_listen_ready fn ∷ cs) = suc (registrations cs)
registrations (adds_before_shutdown fn ∷ cs) = suc (registrations cs)
registrations (adds_binding name addr ∷ cs) = registrations cs
registrations (configures_binding r c ∷ cs) = registrations cs
registrations (adds_clean_up fn ∷ cs) = registrations cs

module _ {World : Type 0} (credit : World → ℕ) where
  -- The service pays for what it registers.
  abbrev pub IsPaid {ℓ} : {A : Type ℓ} → Script World A → Type 0
  IsPaid script =
      (ctx : Context) (s : Sys World)
      → let (calls, w, end) = script ctx s in registrations calls + credit w ≤ credit s.world

  load-call_api_each :
      (cs : List ApiCall) (s : Sys World)
      → load credit (call_api_each cs s) ≡ registrations cs + load credit s
  unfolding call_api_each call_api add_on_listen_ready add_before_shutdown
  load-call_api_each [] s = omega arith
  load-call_api_each (adds_on_listen_ready fn ∷ cs) s = omega (
    arith,
    load-call_api_each cs (call_api (adds_on_listen_ready fn) s),
    length-append s.on_listen_ready (fn ∷ []),
  )
  load-call_api_each (adds_before_shutdown fn ∷ cs) s = omega (
    arith,
    load-call_api_each cs (call_api (adds_before_shutdown fn) s),
    length-append s.before_shutdown (fn ∷ []),
  )
  load-call_api_each (adds_binding name addr ∷ cs) s =
      load-call_api_each cs (call_api (adds_binding name addr) s)
  load-call_api_each (configures_binding r c ∷ cs) s =
      load-call_api_each cs (call_api (configures_binding r c) s)
  load-call_api_each (adds_clean_up fn ∷ cs) s =
      load-call_api_each cs (call_api (adds_clean_up fn) s)

  load-perform {ℓ} :
      {A : Type ℓ} (script : Script World A) (ctx : Context) (s : Sys World)
      → IsPaid script
      → load credit (perform script ctx s).0 ≤ load credit s
  load-perform script ctx s paid =
      let (calls, w, end) = script ctx s in
      omega (arith, load-call_api_each calls (record s { world = w }), paid ctx s)

  -- A platform whose network and clock register nothing.
  pub record IsFree (p : Platform World) : Type 0 where
    pub listen_free : (a : String) (w : World) → credit (p.listen a w).0 ≤ credit w
    pub dial_free : (a : DialAddr) (w : World) → credit (p.dial a w).0 ≤ credit w
    pub sleep_free : (ctx : Context) (w : World) → credit (p.sleep ctx w).0 ≤ credit w

  pub scripted-IsBounded :
      (on_start on_stop : Script World (Option Error)) (callback : ℕ → Script World (Unit {0}))
      (error_handler : ℕ → Handler) (clean_function : ℕ → Script World (Option Error))
      (p : Platform World)
      → IsPaid on_start
      → ((n : ℕ) → IsPaid (callback n))
      → IsFree p
      → IsBounded (scripted on_start on_stop callback error_handler clean_function) p credit
  scripted-IsBounded on_start on_stop callback error_handler clean_function p start_paid
        callback_paid free =
      record {
        on_start_spends = λ ctx s. load-perform on_start ctx s start_paid;
        callback_spends = λ ctx n s. load-perform (callback n) ctx s (callback_paid n);
        listen_free = free.listen_free;
        dial_free = free.dial_free;
        sleep_free = free.sleep_free;
      }
