-- ===== src/Api/Navigation/Effects.antt =====
-- The navigation handler leaves the store alone, and sends a response, with
-- one of the service's statuses.
use dp_topic_api.Http.{Request}
use dp_topic_api.Api.Action.Rules.{KeepsStore, reads}
use dp_topic_api.Api.Action.Replies.{SendsResponse, answers}
use dp_topic_api.Api.Action.Bounds.{KeepsBounds, bounded}
use dp_topic_api.Api.Env.{Env}
use dp_topic_api.Api.Navigation.{get_navigation_handler}

module _ {S : Type 0} (env : Env) where
  pub get_navigation_handler-KeepsStore :
      (req : Request) → KeepsStore {S = S} (get_navigation_handler env req)
  unfolding get_navigation_handler
  get_navigation_handler-KeepsStore req = search reads

  pub get_navigation_handler-SendsResponse :
      (req : Request) → SendsResponse {S = S} (get_navigation_handler env req)
  unfolding get_navigation_handler
  get_navigation_handler-SendsResponse req = search answers

  pub get_navigation_handler-KeepsBounds :
      (req : Request) → KeepsBounds {S = S} (get_navigation_handler env req)
  unfolding get_navigation_handler
  get_navigation_handler-KeepsBounds req = search bounded
