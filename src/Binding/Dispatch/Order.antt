-- ===== src/Binding/Dispatch/Order.antt =====
-- Which handler of a binding serves a request, and how the middleware stands around it (buildHandler
-- of binding.go).
use scaffold_go.Base.{
  ℕ, ◌≡◌, refl, sym, ap, ◌∙◌, Bool, true, false, Option, none, some, List, [], ◌∷◌, ◌++◌, reverse,
  reverse-cons, append-nil, str_eq, is_nonempty, if◌then◌else◌,
}
use scaffold_go.Go.{returns, panics, Text}
use scaffold_go.Http.{
  Request, Exchange, Handler, MiddlewareFunc, RpcHandler, Mux, serve_mux, other_mux,
}
use scaffold_go.Binding.{Binding, error_status_404}
use scaffold_go.Binding.Dispatch.{
  after_rpc, fall_through, inner, wrap_each, expose, resolve_error_handler, build_handler,
}

-- Each RPC handler in turn declines the request, and leaves the exchange to the next.
abbrev pub Declines : List RpcHandler → Exchange → Exchange → Type 0
Declines [] x y = x ≡ y
Declines (h ∷ hs) x z = (y : Exchange) × (h x ≡ (y, returns false)) × Declines hs y z

-- No route: there is no mux, or an http.ServeMux that reports no pattern for the request.
abbrev pub is_unrouted : Option Mux → Request → Bool
is_unrouted none r = true
is_unrouted (some (serve_mux pattern serve)) r = str_eq (pattern r) ""
is_unrouted (some (other_mux serve)) r = false

inner-declined :
    (before after : List RpcHandler) (mux : Option Mux) (not_found : Handler) (x y : Exchange)
    → Declines before x y
    → inner (before ++ after) mux not_found x ≡ inner after mux not_found y
unfolding inner
inner-declined [] after mux not_found x y same = ap (inner after mux not_found) same
inner-declined (h ∷ hs) after mux not_found x y (z, declined, rest) =
    ap (λ o. after_rpc o λ w. inner (hs ++ after) mux not_found w) declined
    ∙ inner-declined hs after mux not_found z y rest

-- The RPC handlers are asked in the order of their registration, and the first that does not decline
-- ends the request: it has served it, or its panic unwinds; those behind it, the mux and the 404
-- handler are not called.
pub inner_first :
    (before after : List RpcHandler) (h : RpcHandler) (mux : Option Mux) (not_found : Handler)
    (x y z : Exchange) (v : Text)
    → Declines before x y
    → (h y ≡ (z, returns true) → inner (before ++ h ∷ after) mux not_found x ≡ (z, returns tt))
      × (h y ≡ (z, panics v) → inner (before ++ h ∷ after) mux not_found x ≡ (z, panics v))
unfolding inner
inner_first before after h mux not_found x y z v declined =
    let reached = inner-declined before (h ∷ after) mux not_found x y declined in
    (
      λ serves. reached ∙ ap (λ o. after_rpc o λ w. inner after mux not_found w) serves,
      λ fails. reached ∙ ap (λ o. after_rpc o λ w. inner after mux not_found w) fails,
    )

fall_through-unrouted :
    (mux : Option Mux) (not_found : Handler) (x : Exchange)
    → is_unrouted mux x.request ≡ true
    → fall_through mux not_found x ≡ not_found x
unfolding fall_through
fall_through-unrouted none not_found x e = refl
fall_through-unrouted (some (other_mux serve)) not_found x e = cc
fall_through-unrouted (some (serve_mux pattern serve)) not_found x e = rw e

-- The first middleware is the outermost.
abbrev pub nest : List MiddlewareFunc → Handler → Handler
nest [] handler = handler
nest (m ∷ ms) handler = m (nest ms handler)

wrap_each-last :
    (ms : List MiddlewareFunc) (m : MiddlewareFunc) (handler : Handler)
    → wrap_each (ms ++ m ∷ []) handler ≡ m (wrap_each ms handler)
unfolding wrap_each
wrap_each-last [] m handler = refl
wrap_each-last (k ∷ ms) m handler = wrap_each-last ms m (k handler)

wrap_each-reverse :
    (ms : List MiddlewareFunc) (handler : Handler)
    → wrap_each (reverse ms) handler ≡ nest ms handler
unfolding wrap_each
wrap_each-reverse [] handler = refl
wrap_each-reverse (m ∷ ms) handler =
    ap (λ l. wrap_each l handler) (reverse-cons m ms)
    ∙ wrap_each-last (reverse ms) m handler
    ∙ ap m (wrap_each-reverse ms handler)

-- The handler of a binding is its dispatch inside its middleware, the first registered outermost;
-- a binding with error handlers wraps the whole in the layer that exposes them.
pub build_handler-nest :
    (serve : ℕ → Handler) (b : Binding)
    → let dispatch = inner b.rpc_handlers b.mux (resolve_error_handler serve error_status_404 b) in
      build_handler serve b ≡ (
        if is_nonempty b.err_handlers
        then expose b.err_handlers (nest b.mws dispatch)
        else nest b.mws dispatch)
unfolding build_handler
build_handler-nest serve b =
    ap (λ handler. if is_nonempty b.err_handlers then expose b.err_handlers handler else handler)
      (wrap_each-reverse b.mws
        (inner b.rpc_handlers b.mux (resolve_error_handler serve error_status_404 b)))

-- A request that every RPC handler declines and for which the mux has no route, or where there is no
-- mux, gets the 404 handler of the binding, whatever a ServeMux would have answered itself.
pub inner_unmatched :
    (serve : ℕ → Handler) (b : Binding) (x y : Exchange)
    → Declines b.rpc_handlers x y
    → is_unrouted b.mux y.request ≡ true
    → let not_found = resolve_error_handler serve error_status_404 b in
      inner b.rpc_handlers b.mux not_found x ≡ not_found y
unfolding inner
inner_unmatched serve b x y declined unrouted =
    let not_found = resolve_error_handler serve error_status_404 b in
    ap (λ l. inner l b.mux not_found x) (sym (append-nil b.rpc_handlers))
    ∙ inner-declined b.rpc_handlers [] b.mux not_found x y declined
    ∙ fall_through-unrouted b.mux not_found y unrouted
