-- ===== src/Context/Laws.antt =====
-- What the accessors of context.go read back from a context that scaffold built.
use scaffold_go.Base.{◌≡◌, refl, true, false, some, List, [], ◌∷◌, arith}
use scaffold_go.Go.{Logger, Duration, is_positive}
use scaffold_go.Context.{
  ConfigProvider, Context, background, caller, with_value, with_timeout, get_config, get_secrets,
  get_logger, enrich_ctx, build_shutdown_ctx,
}

-- The context at the root of a chain of derived contexts, whose cancellation they all inherit.
abbrev pub root : Context → Context
root background = background
root (caller n) = caller n
root (with_value ctx k v) = root ctx
root (with_timeout ctx d) = root ctx

-- The timeouts on the way to the root, innermost first.
abbrev pub timeouts : Context → List Duration
timeouts background = []
timeouts (caller n) = []
timeouts (with_value ctx k v) = timeouts ctx
timeouts (with_timeout ctx d) = d ∷ timeouts ctx

-- An enriched context gives back exactly the provider, the secrets and the logger that were
-- attached, whatever the context below held, and inherits that context's root and timeouts.
enrich_ctx-get :
    (ctx : Context) (cfg sec : ConfigProvider) (log : Logger)
    → let c = enrich_ctx ctx cfg sec log in
      (get_config c ≡ some cfg)
      × (get_secrets c ≡ some sec)
      × (get_logger c ≡ some log)
      × (root c ≡ root ctx)
      × (timeouts c ≡ timeouts ctx)
unfolding enrich_ctx get_config get_secrets get_logger
enrich_ctx-get ctx cfg sec log = (refl, refl, refl, refl, refl)

-- The shutdown context derives from Background, and is bounded by a positive timeout only.
build_shutdown_ctx-root :
    (d : Duration)
    → (root (build_shutdown_ctx d) ≡ background)
      × (is_positive d ≡ true → timeouts (build_shutdown_ctx d) ≡ d ∷ [])
      × (is_positive d ≡ false → timeouts (build_shutdown_ctx d) ≡ [])
unfolding build_shutdown_ctx
build_shutdown_ctx-root d = ground arith
