-- ===== src/Api/Routes/Answers.antt =====
-- The endpoints and the responses that they send.
use dp_topic_api.Prelude.{Bool, true, false, All, ◌&◌}
use dp_topic_api.Http.{Request}
use dp_topic_api.Store.{Storer}
use dp_topic_api.Api.Action.Replies.{SendsResponse}
use dp_topic_api.Api.Env.{Env}
use dp_topic_api.Api.Private.Effects.{
  get_topic_private_handler-SendsResponse, get_subtopics_private_handler-SendsResponse,
  get_root_topics_private_handler-SendsResponse,
  put_topic_release_date_private_handler-SendsResponse,
  put_topic_state_private_handler-SendsResponse, put_topic_private_handler-SendsResponse,
}
use dp_topic_api.Api.Public.Effects.{
  get_topic_public_handler-SendsResponse, get_subtopics_public_handler-SendsResponse,
  get_root_topics_public_handler-SendsResponse,
}
use dp_topic_api.Api.Content.Effects.{
  get_content_public_handler-SendsResponse, get_content_private_handler-SendsResponse,
}
use dp_topic_api.Api.Navigation.Effects.{get_navigation_handler-SendsResponse}
use dp_topic_api.Api.Routes.{Auth, AuthLaws, Route, read_permission, update_permission, setup}
use dp_topic_api.Api.Routes.Guards.{guarded-SendsResponse}

module _ {S : Type 0} (storer : Storer S) (env : Env) where
  -- Where the checks keep to their laws, every endpoint, in either configuration of the service,
  -- sends a response to every request, or panics.
  pub setup-SendsResponse :
      (auth : Auth S) (laws : AuthLaws auth) (enable_private_endpoints : Bool)
      → All
          (λ (route : Route S). (req : Request) → SendsResponse (route.handler req))
          (setup storer env auth enable_private_endpoints)
  setup-SendsResponse auth laws false =
      get_navigation_handler-SendsResponse env
      & get_root_topics_public_handler-SendsResponse storer env
      & get_topic_public_handler-SendsResponse storer env
      & get_content_public_handler-SendsResponse storer env
      & get_subtopics_public_handler-SendsResponse storer env
      & tt
  setup-SendsResponse auth laws true =
      (λ req.
        guarded-SendsResponse laws read_permission _ req
          (get_topic_private_handler-SendsResponse storer env req))
      & (λ req.
          guarded-SendsResponse laws read_permission _ req
            (get_subtopics_private_handler-SendsResponse storer env req))
      & (λ req.
          guarded-SendsResponse laws read_permission _ req
            (get_content_private_handler-SendsResponse storer env req))
      & (λ req.
          guarded-SendsResponse laws read_permission _ req
            (get_root_topics_private_handler-SendsResponse storer env req))
      & (λ req.
          guarded-SendsResponse laws read_permission _ req
            (get_navigation_handler-SendsResponse env req))
      & (λ req.
          guarded-SendsResponse laws update_permission _ req
            (put_topic_release_date_private_handler-SendsResponse storer env req))
      & (λ req.
          guarded-SendsResponse laws update_permission _ req
            (put_topic_state_private_handler-SendsResponse storer env req))
      & (λ req.
          guarded-SendsResponse laws update_permission _ req
            (put_topic_private_handler-SendsResponse storer env req))
      & tt
