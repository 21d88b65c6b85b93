-- ===== src/Binding/Setters.antt =====
-- What holds of a binding's configuration after any sequence of setter calls (binding.go).
use scaffold_go.Base.{
  ℕ, String, ◌≡◌, refl, ◌⊎◌, inl, ◌↔◌, ◌≢◌, Bool, true, false, Option, none, some, List, [], ◌∷◌,
  ◌++◌, is_some, append-nil, append_assoc, sym, ◌∙◌, arith, All,
}
use scaffold_go.Go.{pos, negsuc, Duration, is_nonzero, Outcome, returns, panics, Text}
use scaffold_go.Context.{ErrorStatus, ErrorHandlers}
use scaffold_go.Http.{MiddlewareFunc, RpcHandler, Mux}
use scaffold_go.Binding.{
  Binding, new_binding, same_status, known_status, lookup_status, use_middleware, add_rpc, set_mux,
  set_error_handler, set_tls, set_timeouts, serve_func,
}

-- A call of one of the setters.
pub data Setter : Type 0 where
  uses_middleware : List MiddlewareFunc → Setter
  adds_rpc : List RpcHandler → Setter
  sets_mux : Option Mux → Setter
  sets_error_handler : ErrorStatus → Option ℕ → Setter
  sets_tls : Option ℕ → Setter
  sets_timeouts : Duration → Duration → Duration → Setter
  serves_func : Option ℕ → Setter

unfoldable pub call_setter : Setter → Binding → Binding × Outcome (Unit {0})
unfolding use_middleware add_rpc set_mux set_error_handler set_tls set_timeouts serve_func
call_setter (uses_middleware mw) b = use_middleware mw b
call_setter (adds_rpc hs) b = add_rpc hs b
call_setter (sets_mux h) b = set_mux h b
call_setter (sets_error_handler s h) b = set_error_handler s h b
call_setter (sets_tls cfg) b = set_tls cfg b
call_setter (sets_timeouts r w i) b = set_timeouts r w i b
call_setter (serves_func fn) b = serve_func fn b

-- Nothing of the HTTP pipeline is configured.
pub record IsPipelineEmpty (b : Binding) : Type 0 where
  pub no_mws : b.mws ≡ []
  pub no_rpc : b.rpc_handlers ≡ []
  pub no_mux : b.mux ≡ none
  pub no_err_handlers : b.err_handlers ≡ []
  pub no_tls : b.tls ≡ none
  pub no_read_to : is_nonzero b.read_to ≡ false
  pub no_write_to : is_nonzero b.write_to ≡ false
  pub no_idle_to : is_nonzero b.idle_to ≡ false

-- The keys are known statuses, each once.
abbrev pub IsStatusMap : ErrorHandlers → Type 0
IsStatusMap [] = Unit {0}
IsStatusMap ((s, h) ∷ m) = (known_status s ≡ true) × (lookup_status s m ≡ none) × IsStatusMap m

pub record IsValid (b : Binding) : Type 0 where
  pub exclusive : (b.serve_func ≡ none) ⊎ IsPipelineEmpty b
  pub statuses : IsStatusMap b.err_handlers

-- A new binding is valid.
pub new_binding-IsValid : (name addr : String) → IsValid (new_binding name addr)
unfolding new_binding
new_binding-IsValid name addr = record { exclusive = inl refl; statuses = tt }

-- Every setter, on every branch, keeps a binding valid.
pub call_setter-IsValid : (c : Setter) (b : Binding) → IsValid b → IsValid (call_setter c b).0
unfolding call_setter
call_setter-IsValid (uses_middleware mw) b v = ground arith
call_setter-IsValid (adds_rpc hs) b v = ground arith
call_setter-IsValid (sets_mux h) b v = ground arith
call_setter-IsValid (sets_error_handler s h) b v = ground arith
call_setter-IsValid (sets_tls cfg) b v = ground arith
call_setter-IsValid (sets_timeouts r w i) b v = ground arith
call_setter-IsValid (serves_func fn) b v = ground arith

-- A setter that panics has changed nothing.
pub call_setter_panics :
    (c : Setter) (b : Binding) (t : Text) → (call_setter c b).1 ≡ panics t → (call_setter c b).0 ≡ b
unfolding call_setter
call_setter_panics (uses_middleware mw) b t e = ground arith
call_setter_panics (adds_rpc hs) b t e = ground arith
call_setter_panics (sets_mux h) b t e = ground arith
call_setter_panics (sets_error_handler s h) b t e = ground arith
call_setter_panics (sets_tls cfg) b t e = ground arith
call_setter_panics (sets_timeouts r w i) b t e = ground arith
call_setter_panics (serves_func fn) b t e = ground arith

-- `ServeFunc` is accepted exactly when nothing of the HTTP pipeline is configured.
serve_func_iff :
    (fn : Option ℕ) (b : Binding) → ((serve_func fn b).1 ≡ returns tt) ↔ IsPipelineEmpty b
unfolding serve_func
serve_func_iff fn b = (λ e. ground arith, λ p. ground arith)

-- No setter renames or moves a binding, or touches what opening it will set.
pub call_setter-frame :
    (c : Setter) (b : Binding)
    → let b' = (call_setter c b).0 in
      (b'.name ≡ b.name)
      × (b'.listen_addr ≡ b.listen_addr)
      × (b'.addr ≡ b.addr)
      × (b'.srv ≡ b.srv)
      × (b'.final_handler ≡ b.final_handler)
unfolding call_setter
call_setter-frame (uses_middleware mw) b = ground arith
call_setter-frame (adds_rpc hs) b = ground arith
call_setter-frame (sets_mux h) b = ground arith
call_setter-frame (sets_error_handler s h) b = ground arith
call_setter-frame (sets_tls cfg) b = ground arith
call_setter-frame (sets_timeouts r w i) b = ground arith
call_setter-frame (serves_func fn) b = ground arith

-- The service's setter calls in order; one that panics and is recovered leaves the binding as it was.
unfoldable pub run_setters : List Setter → Binding → Binding
run_setters [] b = b
run_setters (c ∷ cs) b = run_setters cs (call_setter c b).0

-- However a service configures a binding, panics recovered or not, it stays valid.
pub run_setters-IsValid :
    (cs : List Setter) (name addr : String) → IsValid (run_setters cs (new_binding name addr))
unfolding run_setters
run_setters-IsValid cs name addr = go cs (new_binding name addr) (new_binding-IsValid name addr)
  where
    go : (cs : List Setter) (b : Binding) → IsValid b → IsValid (run_setters cs b)
    go [] b v = v
    go (c ∷ cs) b v = go cs (call_setter c b).0 (call_setter-IsValid c b v)

abbrev pub is_serves_func : Setter → Bool
is_serves_func (serves_func fn) = true
is_serves_func _ = false

-- Once ServeFunc owns the listener, every other setter panics.
serve_func_excludes :
    (c : Setter) (b : Binding)
    → is_some b.serve_func ≡ true
    → is_serves_func c ≡ false
    → (call_setter c b).1 ≢ returns tt
unfolding call_setter
serve_func_excludes (uses_middleware mw) b s n = ground arith
serve_func_excludes (adds_rpc hs) b s n = ground arith
serve_func_excludes (sets_mux h) b s n = ground arith
serve_func_excludes (sets_error_handler t h) b s n = ground arith
serve_func_excludes (sets_tls cfg) b s n = ground arith
serve_func_excludes (sets_timeouts r w i) b s n = ground arith
serve_func_excludes (serves_func fn) b s n = ground arith

-- The middleware and the RPC handlers that a call registers.
abbrev pub mws_of : Setter → List MiddlewareFunc
mws_of (uses_middleware mw) = mw
mws_of _ = []

abbrev pub rpc_of : Setter → List RpcHandler
rpc_of (adds_rpc hs) = hs
rpc_of _ = []

abbrev pub concat_map {ℓ κ} : {A : Type ℓ} {B : Type κ} → (A → List B) → List A → List B
concat_map f [] = []
concat_map f (x ∷ xs) = f x ++ concat_map f xs

call_setter-pipeline :
    (c : Setter) (b : Binding)
    → b.serve_func ≡ none
    → is_serves_func c ≡ false
    → let b' = (call_setter c b).0 in
      (b'.serve_func ≡ none)
      × (b'.mws ≡ b.mws ++ mws_of c)
      × (b'.rpc_handlers ≡ b.rpc_handlers ++ rpc_of c)
unfolding call_setter
call_setter-pipeline (uses_middleware mw) b s n = ground (arith, append-nil b.rpc_handlers)
call_setter-pipeline (adds_rpc hs) b s n = ground (arith, append-nil b.mws)
call_setter-pipeline (sets_mux h) b s n =
    ground (arith, append-nil b.mws, append-nil b.rpc_handlers)
call_setter-pipeline (sets_error_handler t h) b s n =
    ground (arith, append-nil b.mws, append-nil b.rpc_handlers)
call_setter-pipeline (sets_tls cfg) b s n =
    ground (arith, append-nil b.mws, append-nil b.rpc_handlers)
call_setter-pipeline (sets_timeouts r w i) b s n =
    ground (arith, append-nil b.mws, append-nil b.rpc_handlers)
call_setter-pipeline (serves_func fn) b s n = cc

-- On an HTTP binding, on which ServeFunc is not called, the middleware and the RPC handlers stand in
-- the order of their registration, behind those that it had.
pub run_setters-pipeline :
    (cs : List Setter) (b : Binding)
    → b.serve_func ≡ none
    → All (λ c. is_serves_func c ≡ false) cs
    → let b' = run_setters cs b in
      (b'.mws ≡ b.mws ++ concat_map mws_of cs)
      × (b'.rpc_handlers ≡ b.rpc_handlers ++ concat_map rpc_of cs)
unfolding run_setters
run_setters-pipeline [] b s n = (sym (append-nil b.mws), sym (append-nil b.rpc_handlers))
run_setters-pipeline (c ∷ cs) b s n =
    let (s', m, r) = call_setter-pipeline c b s n.0 in
    let (ms, rs) = run_setters-pipeline cs (call_setter c b).0 s' n.1 in
    (ms ∙ rw m (append_assoc b.mws _ _), rs ∙ rw r (append_assoc b.rpc_handlers _ _))

-- An error handler that SetErrorHandler accepts is the one found for its status, and no other status is affected.
set_error_handler_lem :
    (s t : ErrorStatus) (h : ℕ) (b : Binding)
    → (set_error_handler s (some h) b).1 ≡ returns tt
    → let m = (set_error_handler s (some h) b).0.err_handlers in
      (lookup_status s m ≡ some h)
      × (same_status s t ≡ false → lookup_status t m ≡ lookup_status t b.err_handlers)
unfolding set_error_handler lookup_status
set_error_handler_lem (pos k) t h b e = (ground arith, λ n. ground arith)
set_error_handler_lem (negsuc k) t h b e = (ground arith, λ n. ground arith)
