-- ===== src/Api/Routes.antt =====
-- api/api.go: the endpoints of the service and the checks in front of them. The router, the check
-- of the caller's identity and the check of the caller's permissions are not of this repository:
-- the checks enter as the record `Auth`, with `AuthLaws` for what they document.
pub mod Reads
pub mod Answers
pub mod Bounds
pub mod Guards
pub mod Secrecy
use dp_topic_api.Prelude.{String, Bool, true, false, ◌≡◌, List, [], ◌∷◌, if◌then◌else◌}
use dp_topic_api.Http.{Request}
use dp_topic_api.Store.{Storer}
use dp_topic_api.Api.Action.{Conn, Action}
use dp_topic_api.Api.Outcome.{store_after, IsAnswered}
use dp_topic_api.Api.Env.{Env}
use dp_topic_api.Api.Private.{
  get_topic_private_handler, get_subtopics_private_handler, get_root_topics_private_handler,
  put_topic_release_date_private_handler, put_topic_state_private_handler,
  put_topic_private_handler,
}
use dp_topic_api.Api.Public.{
  get_topic_public_handler, get_subtopics_public_handler, get_root_topics_public_handler,
}
use dp_topic_api.Api.Content.{get_content_public_handler, get_content_private_handler}
use dp_topic_api.Api.Navigation.{get_navigation_handler}

abbrev pub Handler : Type 0 → Type 0
Handler S = Request → Action S (Unit {0})

-- `auth.Permissions`
pub record Permissions : Type 0 where
  pub create : Bool
  pub read : Bool
  pub write : Bool
  pub remove : Bool

abbrev pub read_permission : Permissions
read_permission = record { create = false; read = true; write = false; remove = false }

abbrev pub update_permission : Permissions
update_permission = record { create = false; read = false; write = true; remove = false }

-- `dphandlers.CheckIdentity`, and the interface `AuthHandler`
pub record Auth (S : Type 0) : Type 0 where
  pub check_identity : Handler S → Handler S
  pub require : Permissions → Handler S → Handler S

-- A check passes an admitted request to the handler that it wraps; it answers any other request
-- itself, and leaves the store alone.
pub record IsCheck {S : Type 0} (wrap : Handler S → Handler S) (admits : Request → Bool)
    : Type 0 where
  pub passes :
      (handler : Handler S) (req : Request) (c : Conn S)
      → admits req ≡ true
      → wrap handler req c ≡ handler req c
  pub keeps :
      (handler : Handler S) (req : Request) (c : Conn S)
      → admits req ≡ false
      → store_after (wrap handler req c) ≡ c.store
  pub answers :
      (handler : Handler S) (req : Request) (c : Conn S)
      → admits req ≡ false
      → IsAnswered (wrap handler req c)

pub record AuthLaws {S : Type 0} (auth : Auth S) : Type 0 where
  pub identified : Request → Bool
  pub permitted : Permissions → Request → Bool
  pub identity : IsCheck auth.check_identity identified
  pub permission : (required : Permissions) → IsCheck (auth.require required) (permitted required)

pub record Route (S : Type 0) : Type 0 where
  pub method : String
  pub path : String
  pub handler : Handler S

-- `api.get` and `api.put`
abbrev pub get_route : {S : Type 0} → String → Handler S → Route S
get_route path handler = record { method = "GET"; path = path; handler = handler }

abbrev pub put_route : {S : Type 0} → String → Handler S → Route S
put_route path handler = record { method = "PUT"; path = path; handler = handler }

abbrev pub is_authenticated : {S : Type 0} → Auth S → Handler S → Handler S
is_authenticated auth handler = auth.check_identity handler

abbrev pub is_authorised : {S : Type 0} → Auth S → Permissions → Handler S → Handler S
is_authorised auth required handler = auth.require required handler

module _ {S : Type 0} (storer : Storer S) (env : Env) where
  -- `enablePublicEndpoints`
  abbrev pub public_routes : List (Route S)
  public_routes =
      get_route "/navigation" (get_navigation_handler env)
      ∷ get_route "/topics" (get_root_topics_public_handler storer env)
      ∷ get_route "/topics/{id}" (get_topic_public_handler storer env)
      ∷ get_route "/topics/{id}/content" (get_content_public_handler storer env)
      ∷ get_route "/topics/{id}/subtopics" (get_subtopics_public_handler storer env)
      ∷ []

  module _ (auth : Auth S) where
    abbrev reading : Handler S → Handler S
    reading handler = is_authenticated auth (is_authorised auth read_permission handler)

    abbrev updating : Handler S → Handler S
    updating handler = is_authenticated auth (is_authorised auth update_permission handler)

    -- `enablePrivateTopicEndpoints`
    abbrev pub private_routes : List (Route S)
    private_routes =
        get_route "/topics/{id}" (reading (get_topic_private_handler storer env))
        ∷ get_route "/topics/{id}/subtopics" (reading (get_subtopics_private_handler storer env))
        ∷ get_route "/topics/{id}/content" (reading (get_content_private_handler storer env))
        ∷ get_route "/topics" (reading (get_root_topics_private_handler storer env))
        ∷ get_route "/navigation" (reading (get_navigation_handler env))
        ∷ put_route "/topics/{id}/release-date"
            (updating (put_topic_release_date_private_handler storer env))
        ∷ put_route "/topics/{id}/state/{state}"
            (updating (put_topic_state_private_handler storer env))
        ∷ put_route "/topics/{id}" (updating (put_topic_private_handler storer env))
        ∷ []

    -- `Setup`: the endpoints for the configuration's `EnablePrivateEndpoints`.
    abbrev pub setup : Bool → List (Route S)
    setup enable_private_endpoints =
        if enable_private_endpoints then private_routes else public_routes
