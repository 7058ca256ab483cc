-- ===== src/Api/Routes/Secrecy.antt =====
-- The endpoints for the website and the documents that are not published.
use dp_topic_api.Prelude.{All, ◌&◌}
use dp_topic_api.Http.{Request}
use dp_topic_api.Store.{Storer}
use dp_topic_api.Api.Action.Views.{IsBlind, blind}
use dp_topic_api.Api.Env.{Env}
use dp_topic_api.Api.View.{AgreesInPublic}
use dp_topic_api.Api.Public.Secrecy.{
  get_topic_public_handler-IsBlind, get_subtopics_public_handler-IsBlind,
  get_root_topics_public_handler-IsBlind,
}
use dp_topic_api.Api.Content.Secrecy.{get_content_public_handler-IsBlind}
use dp_topic_api.Api.Navigation.{get_navigation_handler}
use dp_topic_api.Api.Routes.{Route, public_routes}

get_navigation_handler-IsBlind :
    {S : Type 0} (storer : Storer S) (env : Env) (req : Request)
    → IsBlind (AgreesInPublic storer) (get_navigation_handler env req)
unfolding get_navigation_handler
get_navigation_handler-IsBlind storer env req = search blind

-- No endpoint for the website shows a next document: on two stores that give the same current
-- documents, contents and errors for every id, a request gets the same response, or panics alike.
pub public_routes-IsBlind :
    {S : Type 0} (storer : Storer S) (env : Env)
    → All
        (λ (route : Route S). (req : Request) → IsBlind (AgreesInPublic storer) (route.handler req))
        (public_routes storer env)
public_routes-IsBlind storer env =
    get_navigation_handler-IsBlind storer env
    & get_root_topics_public_handler-IsBlind storer env
    & get_topic_public_handler-IsBlind storer env
    & get_content_public_handler-IsBlind storer env
    & get_subtopics_public_handler-IsBlind storer env
    & tt
