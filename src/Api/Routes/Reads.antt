-- ===== src/Api/Routes/Reads.antt =====
-- The endpoints that only read.
use dp_topic_api.Prelude.{String, ap, ◌==◌, ◌≢◌, Bool, true, false, ◌≡◌, All, ◌&◌}
use dp_topic_api.Http.{Request}
use dp_topic_api.Store.{Storer}
use dp_topic_api.Api.Action.Rules.{KeepsStore}
use dp_topic_api.Api.Env.{Env}
use dp_topic_api.Api.Private.Effects.{
  get_topic_private_handler-KeepsStore, get_subtopics_private_handler-KeepsStore,
  get_root_topics_private_handler-KeepsStore,
}
use dp_topic_api.Api.Public.Effects.{
  get_topic_public_handler-KeepsStore, get_subtopics_public_handler-KeepsStore,
  get_root_topics_public_handler-KeepsStore,
}
use dp_topic_api.Api.Content.Effects.{
  get_content_public_handler-KeepsStore, get_content_private_handler-KeepsStore,
}
use dp_topic_api.Api.Navigation.Effects.{get_navigation_handler-KeepsStore}
use dp_topic_api.Api.Routes.{Auth, AuthLaws, Route, read_permission, public_routes, setup}
use dp_topic_api.Api.Routes.Guards.{guarded-KeepsStore}

no_get : ◌≢◌ {A = String} "PUT" "GET"
no_get h = let e : false ≡ true = ap (λ s. s == "GET") h in cc e

module _ {S : Type 0} (storer : Storer S) (env : Env) where
  -- None of the endpoints for the website changes the store, whatever the request.
  pub public_routes-KeepsStore :
      All
        (λ (route : Route S). (req : Request) → KeepsStore (route.handler req))
        (public_routes storer env)
  public_routes-KeepsStore =
      get_navigation_handler-KeepsStore env
      & get_root_topics_public_handler-KeepsStore storer env
      & get_topic_public_handler-KeepsStore storer env
      & get_content_public_handler-KeepsStore storer env
      & get_subtopics_public_handler-KeepsStore storer env
      & tt

  -- Where the checks keep to their laws, a GET endpoint never changes the store, in either
  -- configuration of the service.
  pub setup-KeepsStore :
      (auth : Auth S) (laws : AuthLaws auth) (enable_private_endpoints : Bool)
      → All
          (λ (route : Route S).
            route.method ≡ "GET" → (req : Request) → KeepsStore (route.handler req))
          (setup storer env auth enable_private_endpoints)
  setup-KeepsStore auth laws false =
      (λ h. get_navigation_handler-KeepsStore env)
      & (λ h. get_root_topics_public_handler-KeepsStore storer env)
      & (λ h. get_topic_public_handler-KeepsStore storer env)
      & (λ h. get_content_public_handler-KeepsStore storer env)
      & (λ h. get_subtopics_public_handler-KeepsStore storer env)
      & tt
  setup-KeepsStore auth laws true =
      (λ h req.
        guarded-KeepsStore laws read_permission _ req
          (get_topic_private_handler-KeepsStore storer env req))
      & (λ h req.
          guarded-KeepsStore laws read_permission _ req
            (get_subtopics_private_handler-KeepsStore storer env req))
      & (λ h req.
          guarded-KeepsStore laws read_permission _ req
            (get_content_private_handler-KeepsStore storer env req))
      & (λ h req.
          guarded-KeepsStore laws read_permission _ req
            (get_root_topics_private_handler-KeepsStore storer env req))
      & (λ h req.
          guarded-KeepsStore laws read_permission _ req (get_navigation_handler-KeepsStore env req))
      & (λ h. elim (no_get h) [ ])
      & (λ h. elim (no_get h) [ ])
      & (λ h. elim (no_get h) [ ])
      & tt
