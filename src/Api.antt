-- ===== src/Api.antt =====
-- A service as a program over the exported API: what its functions do to scaffold's state is a list
-- of calls of Add, the setters, Cleaner.Add, AddOnListenReady and AddBeforeShutdown. It runs no clean-up
-- and stops no instance from within them, and leaves the fields of DaemonConfig as they are.
pub mod Civil
pub mod Cost
pub mod Whole
pub mod Store
use scaffold_go.Base.{ℕ, String, Option, List, [], ◌∷◌}
use scaffold_go.Go.{Outcome, Error}
use scaffold_go.Context.{Context}
use scaffold_go.Http.{Handler}
use scaffold_go.Binding.Setters.{Setter}
use scaffold_go.System.{BindingStore, Sys, Daemon}
use scaffold_go.Bindings
use scaffold_go.Cleaner
use scaffold_go.Cleaner.{set_cleaner}
use scaffold_go.Lifecycle.Callbacks.{add_on_listen_ready, add_before_shutdown}

-- One call. The listen address is the one that the implementation of Bindings makes.
pub data ApiCall : Type 0 where
  adds_binding : String → String → ApiCall
  configures_binding : ℕ → Setter → ApiCall
  adds_clean_up : ℕ → ApiCall
  adds_on_listen_ready : ℕ → ApiCall
  adds_before_shutdown : ℕ → ApiCall

-- What one function of the service does, in the state in which it is called: its calls, what it keeps
-- for itself, and its end.
abbrev pub Script {ℓ} : Type 0 → Type ℓ → Type ℓ
Script World A = Context → Sys World → List ApiCall × World × Outcome A

module _ {World : Type 0} where
  abbrev pub set_bindings : BindingStore → Sys World → Sys World
  set_bindings b s = record s { bindings = b }

  -- A call that panics has no effect either way; the service may recover it.
  unfoldable pub call_api : ApiCall → Sys World → Sys World
  unfolding Bindings.add Bindings.configure Cleaner.add add_on_listen_ready add_before_shutdown
  call_api (adds_binding name addr) s = set_bindings (Bindings.add name addr s.bindings).0 s
  call_api (configures_binding r c) s = set_bindings (Bindings.configure r c s.bindings).0 s
  call_api (adds_clean_up fn) s = set_cleaner (Cleaner.add fn s.cleaner).0 s
  call_api (adds_on_listen_ready fn) s = add_on_listen_ready fn s
  call_api (adds_before_shutdown fn) s = add_before_shutdown fn s

  unfoldable pub call_api_each : List ApiCall → Sys World → Sys World
  call_api_each [] s = s
  call_api_each (c ∷ cs) s = call_api_each cs (call_api c s)

  abbrev pub perform {ℓ} :
      {A : Type ℓ} → Script World A → Context → Sys World → Sys World × Outcome A
  perform script ctx s =
      let (calls, w, end) = script ctx s in (call_api_each calls (record s { world = w }), end)

  -- The service of these functions.
  abbrev pub scripted :
      Script World (Option Error)
      → Script World (Option Error)
      → (ℕ → Script World (Unit {0}))
      → (ℕ → Handler)
      → (ℕ → Script World (Option Error))
      → Daemon World
  scripted on_start on_stop callback error_handler clean_function = record {
    on_start = perform on_start;
    on_stop = perform on_stop;
    callback = λ n. perform (callback n);
    error_handler = error_handler;
    clean_function = λ n. perform (clean_function n);
  }
