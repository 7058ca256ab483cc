-- ===== src/Service/Start/Serves.antt =====
-- What the service does with a request once it runs: the middleware, the router and the endpoints.
use dp_topic_api.Prelude.{
  String, Bool, true, false, ◌≡◌, ◌∙◌, sym, subst, ◌&&◌, ◌==◌, ◌⊎◌, inl, inr, some, some-injective,
  List, Memᴰ, All, All-at, All-mono, Bool-cases, arith, if◌then◌else◌,
}
use dp_topic_api.Http.{Request}
use dp_topic_api.Config.{Config}
use dp_topic_api.Api.Action.Rules.{KeepsStore, KeepsStore-if}
use dp_topic_api.Api.Routes.{Handler, AuthLaws, Route, setup, public_routes}
use dp_topic_api.Api.Routes.Reads.{setup-KeepsStore, public_routes-KeepsStore}
use dp_topic_api.Service.Outside.{Outside, ChainLaws, Mongo, HealthCheck}
use dp_topic_api.Service.Middleware.{create_middleware, healthcheck_middleware}
use dp_topic_api.Service.Start.{
  Server, new_service_list, new, run, auth_of, env_of, endpoints, make_server,
}
use dp_topic_api.Service.Start.Outcomes.{
  without_mongo, without_health_check, without_checks, serving, run-Starts, mongo_of,
  health_check_of,
}

-- What the libraries document: the router answers by an endpoint of the request's method, with the
-- path's variables added to the request, or by itself; the identity middleware passes the request on,
-- with the identity added, or answers by itself; the health check answers by itself. What answers by
-- itself leaves the database alone.
pub record ServesLaws {S C : Type 0} (outside : Outside S C) (config : Config) : Type 0 where
  pub chains : ChainLaws outside
  pub checks : AuthLaws (auth_of outside config)
  pub dispatches :
      (routes : List (Route S)) (req : Request)
      → ((route : Route S) × (matched : Request) × Memᴰ route routes
          × (route.method ≡ req.method)
          × (outside.dispatch routes req ≡ route.handler matched))
        ⊎ KeepsStore (outside.dispatch routes req)
  pub identifies :
      (url : String) (h : Handler S) (req : Request)
      → ((identified : Request) × (identified.method ≡ req.method)
          × (outside.identity url h req ≡ h identified))
        ⊎ KeepsStore (outside.identity url h req)
  pub health_keeps :
      (health_check : HealthCheck) (req : Request)
      → KeepsStore (outside.health_handler health_check req)

-- The requests that only read.
abbrev pub IsRead : Config → Request → Type 0
IsRead config req = (config.enable_private_endpoints ≡ false) ⊎ (req.method ≡ "GET")

module _ {S C : Type 0} (outside : Outside S C) (config : Config)
    (laws : ServesLaws outside config) where
  -- An endpoint of the request's method keeps the store.
  abbrev IsSafe : Request → Route S → Type 0
  IsSafe req route =
      route.method ≡ req.method → (matched : Request) → KeepsStore (route.handler matched)

  abbrev IsGetSafe : Route S → Type 0
  IsGetSafe route = route.method ≡ "GET" → (req : Request) → KeepsStore (route.handler req)

  setup_reads :
      (mongo : Mongo) (private : Bool) (req : Request)
      → (private ≡ false) ⊎ (req.method ≡ "GET")
      → All
          (IsSafe req)
          (setup (outside.storer mongo) (env_of outside config) (auth_of outside config) private)
  setup_reads mongo false req h =
      All-mono {P = λ (route : Route S). (matched : Request) → KeepsStore (route.handler matched)}
        {Q = IsSafe req} (λ route k e. k)
        (public_routes (outside.storer mongo) (env_of outside config))
        (public_routes-KeepsStore (outside.storer mongo) (env_of outside config))
  setup_reads mongo true req (inl h) = ground arith
  setup_reads mongo true req (inr h) =
      All-mono {P = IsGetSafe} {Q = IsSafe req} (λ route k e. k (e ∙ h))
        (setup (outside.storer mongo) (env_of outside config) (auth_of outside config) true)
        (setup-KeepsStore (outside.storer mongo) (env_of outside config) (auth_of outside config)
          laws.checks true)

  dispatch-KeepsStore :
      (mongo : Mongo) (req : Request)
      → IsRead config req
      → KeepsStore (outside.dispatch (endpoints outside config mongo) req)
  dispatch-KeepsStore mongo req h = elim (laws.dispatches (endpoints outside config mongo) req) [
    | inr k ↦ k
    | inl (route, matched, member, method, e) ↦ rw e (
        All-at (IsSafe req) route _ (setup_reads mongo config.enable_private_endpoints req h) member
          method matched)
  ]

  identity-KeepsStore :
      (mongo : Mongo) (url : String) (req : Request)
      → IsRead config req
      → KeepsStore (outside.identity url (outside.dispatch (endpoints outside config mongo)) req)
  identity-KeepsStore mongo url req h =
      elim (laws.identifies url (outside.dispatch (endpoints outside config mongo)) req) [
        | inr k ↦ k
        | inl (identified, method, e) ↦ rw e (
            dispatch-KeepsStore mongo identified
              (elim h [ inl p ↦ inl p | inr g ↦ inr (method ∙ g) ]))
      ]

  healthcheck-KeepsStore :
      (health_check : HealthCheck) (h : Handler S) (req : Request)
      → KeepsStore (h req)
      → KeepsStore (healthcheck_middleware (outside.health_handler health_check) "/health" h req)
  healthcheck-KeepsStore health_check h req k =
      KeepsStore-if (req.method == "GET" && req.path == "/health") _ _
        (laws.health_keeps health_check req) k

  middleware_lem :
      (health_check : HealthCheck) (url : String) (h : Handler S)
      → outside.chain_then (create_middleware outside config health_check url) h
        ≡ healthcheck_middleware
            (outside.health_handler health_check)
            "/health"
            (if config.enable_private_endpoints then outside.identity url h else h)
  unfolding create_middleware
  middleware_lem health_check url h = elim (Bool-cases config.enable_private_endpoints) [
    | inl p ↦ rw p (laws.chains.then_append _ _ h ∙ laws.chains.then_new _ _)
    | inr p ↦ rw p (laws.chains.then_new _ h)
  ]

  either-KeepsStore :
      (b : Bool) (f g : Handler S) (req : Request)
      → KeepsStore (f req)
      → KeepsStore (g req)
      → KeepsStore ((if b then f else g) req)
  either-KeepsStore true f g req k l = k
  either-KeepsStore false f g req k l = l

  server-KeepsStore :
      (mongo : Mongo) (health_check : HealthCheck) (url : String) (req : Request)
      → IsRead config req
      → KeepsStore (
          (make_server outside config health_check url).handler
            (endpoints outside config mongo)
            req)
  server-KeepsStore mongo health_check url req h =
      let inner = outside.dispatch (endpoints outside config mongo) in
      subst (λ (f : Handler S). KeepsStore (f req)) (sym (middleware_lem health_check url inner))
        (healthcheck-KeepsStore health_check
          (if config.enable_private_endpoints then outside.identity url inner else inner) req
          (either-KeepsStore config.enable_private_endpoints (outside.identity url inner) inner req
            (identity-KeepsStore mongo url req h) (dispatch-KeepsStore mongo req h)))

  -- Where the libraries keep to their laws, the handler that `Run` gives to its server, with the
  -- endpoints that `Run` registers, never changes the database on a GET, and on no request at all
  -- where the endpoints for publishing are not enabled.
  pub run-KeepsStore :
      (build_time git_commit version : String) (server : Server S) (routes : List (Route S))
      (req : Request)
      → let svc =
          (run outside (new config new_service_list) build_time git_commit version).service in
        svc.server ≡ some server
        → svc.api ≡ some routes
        → IsRead config req
        → KeepsStore (server.handler routes req)
  run-KeepsStore build_time git_commit version server routes req h k read =
      elim (run-Starts outside config build_time git_commit version) [
        | without_mongo e o r f (idle, _, _) ↦ ground arith
        | without_health_check e o v r f (idle, _, _) ↦ ground arith
        | without_checks o v u r f (idle, _, _) ↦ ground arith
        | serving o v u r f server' api events ↦
            let made =
              make_server outside config
                (health_check_of outside config build_time git_commit version) config.zebedee_url in
            let registered = endpoints outside config (mongo_of outside config) in
            let e : made ≡ server = some-injective made server (sym server' ∙ h) in
            let d : registered ≡ routes = some-injective registered routes (sym api ∙ k) in
            subst (λ (s : Server S). KeepsStore (s.handler routes req)) e
              (subst (λ (l : List (Route S)). KeepsStore (made.handler l req)) d
                (server-KeepsStore (mongo_of outside config)
                  (health_check_of outside config build_time git_commit version) config.zebedee_url
                  req read))
      ]
