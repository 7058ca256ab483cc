-- ===== src/Tests/Listings.antt =====
-- The endpoints and the public listing, at the store in memory.
use dp_topic_api.Prelude.{[], ◌∷◌, some, Memᴰ, ◌≡◌, refl, true, false, All}
use dp_topic_api.Http.{Request, write, write_header, http_error}
use dp_topic_api.Api.Action.{Conn}
use dp_topic_api.Api.Action.Rules.{KeepsStore}
use dp_topic_api.Api.Action.Replies.{SendsResponse}
use dp_topic_api.Api.Outcome.{store_after, status_after}
use dp_topic_api.Api.Respond.{error_status, handle_error}
use dp_topic_api.Api.Action.Bounds.{IsStatus}
use dp_topic_api.Api.Routes.Bounds.{setup-IsStatus}
use dp_topic_api.Api.Public.{get_subtopics_public_by_id, get_topic_public_handler}
use dp_topic_api.Api.Public.Single.{ShowsTopic, get_topic_public_handler-ShowsTopic}
use dp_topic_api.Api.Public.Listing.{ListsPublic, get_subtopics_public_by_id-ListsPublic}
use dp_topic_api.Api.Routes.{Route, get_route, public_routes, private_routes, setup}
use dp_topic_api.Api.Routes.Reads.{setup-KeepsStore}
use dp_topic_api.Api.Action.Views.{IsBlind}
use dp_topic_api.Api.View.{AgreesInPublic}
use dp_topic_api.Api.Routes.Secrecy.{public_routes-IsBlind}
use dp_topic_api.Api.Routes.Answers.{setup-SendsResponse}
use dp_topic_api.Api.Routes.Guards.{admitted, needed, private_routes-refused}
use dp_topic_api.Tests.Fixtures.{Documents, storer, env, conn, auth, auth_laws, request}

get_subtopics_public_by_id-ListsPublic_example :
    ListsPublic storer env conn "topic_root"
      (get_subtopics_public_by_id storer env "topic_root" conn)
get_subtopics_public_by_id-ListsPublic_example =
    get_subtopics_public_by_id-ListsPublic storer env conn "topic_root" refl

private_routes-refused_example :
    All
      (λ (route : Route Documents).
        (req : Request) (c : Conn Documents)
        → admitted (auth_laws {S = Documents}) (needed route.method) req ≡ false
        → store_after (route.handler req c) ≡ c.store)
      (private_routes storer env auth)
private_routes-refused_example = private_routes-refused storer env auth auth_laws

setup-KeepsStore_example :
    All
      (λ (route : Route Documents).
        route.method ≡ "GET" → (req : Request) → KeepsStore (route.handler req))
      (setup storer env auth true)
setup-KeepsStore_example = setup-KeepsStore storer env auth auth_laws true

setup-SendsResponse_example :
    All
      (λ (route : Route Documents). (req : Request) → SendsResponse (route.handler req))
      (setup storer env auth true)
setup-SendsResponse_example = setup-SendsResponse storer env auth auth_laws true

public_routes-IsBlind_example :
    All
      (λ (route : Route Documents).
        (req : Request) → IsBlind (AgreesInPublic storer) (route.handler req))
      (public_routes storer env)
public_routes-IsBlind_example = public_routes-IsBlind storer env

abbrev draft : Request
draft = request (("id", "draft") ∷ []) [] ""

get_topic_public_handler-ShowsTopic_example :
    ShowsTopic storer env conn "draft" (get_topic_public_handler storer env draft conn)
get_topic_public_handler-ShowsTopic_example =
    get_topic_public_handler-ShowsTopic storer env conn draft refl

abbrev unknown : Request
unknown = request (("id", "unknown") ∷ []) [] ""

abbrev topic_route : Route Documents
topic_route = get_route "/topics/{id}" (get_topic_public_handler storer env)

unknown_missing : status_after (topic_route.handler unknown conn) ≡ some 404
unfolding get_topic_public_handler handle_error http_error write_header write error_status
unknown_missing = refl

setup-IsStatus_example : IsStatus 404
setup-IsStatus_example =
    setup-IsStatus storer env auth auth_laws false topic_route
      (Memᴰ.tail (Memᴰ.tail (Memᴰ.head refl))) unknown conn refl (λ h. cc (h)) 404 unknown_missing
