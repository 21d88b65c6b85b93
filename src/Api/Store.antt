-- ===== src/Api/Store.antt =====
-- A service that uses the exported API only keeps its store of bindings well-formed.
use scaffold_go.Base.{String, Option, none, some, List, [], ◌∷◌, true, false, Bool}
use scaffold_go.Context.{Context}
use scaffold_go.System.{BindingStore, BindingsKind, Sys}
use scaffold_go.Bindings.Runs.{no_bindings-IsWellFormed}
use scaffold_go.Bindings.Store.{IsWellFormed, add-IsWellFormed, configure-IsWellFormed}
use scaffold_go.Lifecycle.Options.{resolve_bindings, with_bind_addr}
use scaffold_go.Api.{
  ApiCall, adds_binding, configures_binding, adds_clean_up, adds_on_listen_ready,
  adds_before_shutdown, Script, call_api, call_api_each, perform,
}

module _ {World : Type 0} where
  call_api-IsWellFormed :
      (c : ApiCall) (s : Sys World) → IsWellFormed s.bindings → IsWellFormed (call_api c s).bindings
  unfolding call_api
  call_api-IsWellFormed (adds_binding name addr) s w = add-IsWellFormed name addr s.bindings w
  call_api-IsWellFormed (configures_binding r c) s w = configure-IsWellFormed r c s.bindings w
  call_api-IsWellFormed (adds_clean_up fn) s w = w
  call_api-IsWellFormed (adds_on_listen_ready fn) s w = w
  call_api-IsWellFormed (adds_before_shutdown fn) s w = w

  call_api_each-IsWellFormed :
      (cs : List ApiCall) (s : Sys World)
      → IsWellFormed s.bindings
      → IsWellFormed (call_api_each cs s).bindings
  unfolding call_api_each
  call_api_each-IsWellFormed [] s w = w
  call_api_each-IsWellFormed (c ∷ cs) s w =
      call_api_each-IsWellFormed cs (call_api c s) (call_api-IsWellFormed c s w)

  pub perform-IsWellFormed {ℓ} :
      {A : Type ℓ} (script : Script World A) (ctx : Context) (s : Sys World)
      → IsWellFormed s.bindings
      → IsWellFormed (perform script ctx s).0.bindings
  perform-IsWellFormed script ctx s w =
      let (calls, world, end) = script ctx s in
      call_api_each-IsWellFormed calls (record s { world = world }) w

-- The kind of a store has no part in it.
of_kind-IsWellFormed :
    (kind : BindingsKind) (b : BindingStore)
    → IsWellFormed b
    → IsWellFormed (record b { kind = kind })
of_kind-IsWellFormed kind b w = record { ordered = w.ordered; mapped = w.mapped; bound = w.bound }

-- The bindings that the options give, if they do.
abbrev pub AreGivenWellFormed : Option BindingStore → Type 0
AreGivenWellFormed none = Unit
AreGivenWellFormed (some b) = IsWellFormed b

pub resolve_bindings-IsWellFormed :
    (o : Option BindingStore) (production : Bool) (bind_addr : String)
    → AreGivenWellFormed o
    → IsWellFormed (resolve_bindings o production bind_addr)
unfolding resolve_bindings
resolve_bindings-IsWellFormed (some b) production bind_addr w =
    of_kind-IsWellFormed (with_bind_addr bind_addr b.kind) b w
resolve_bindings-IsWellFormed none true bind_addr w = no_bindings-IsWellFormed _
resolve_bindings-IsWellFormed none false bind_addr w = no_bindings-IsWellFormed _
