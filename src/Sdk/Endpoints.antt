-- ===== src/Sdk/Endpoints.antt =====
-- Which endpoint each call of sdk/client.go and sdk/client_private.go is for.
pub mod Reached
use dp_topic_api.Prelude.{
  String, ◌≡◌, refl, Bool, true, false, Option, none, some, List, [], ◌∷◌, Memᴰ, map,
}
use dp_topic_api.Prelude.Text.{concat}
use dp_topic_api.Errors.{Result, ok, err}
use dp_topic_api.Store.{Storer}
use dp_topic_api.Api.Env.{Env}
use dp_topic_api.Api.Routes.{Auth, Route, setup}
use dp_topic_api.Sdk.Options.{Headers}
use dp_topic_api.Sdk.Call.{Response, Transport, request_for, call_topic_api, take_result}
use dp_topic_api.Sdk.Client.{
  Decoders, fetch, put, get_root_topics_public, get_topic_public, get_subtopics_public,
  get_root_topics_private, get_topic_private, get_subtopics_private, put_topic_state_private,
  put_topic_release_private, put_topic_private,
}
use dp_topic_api.Sdk.Paths.{expand, names}

-- The calls about topics.
pub data TopicCall : Type 0 where
  root_topics_public root_topics_private : TopicCall
  topic_public subtopics_public topic_private subtopics_private : String → TopicCall
  put_state : String → String → TopicCall
  put_release put_topic : String → Option String → TopicCall

-- A method and a path of the service, in one of its two configurations, with values for the
-- variables of the path.
pub record Target : Type 0 where
  pub enable_private_endpoints : Bool
  pub method : String
  pub path : String
  pub vars : List (String × String)

abbrev target : Bool → String → String → List (String × String) → Target
target enable method path vars = record {
  enable_private_endpoints = enable;
  method = method;
  path = path;
  vars = vars;
}

abbrev of_id : String → List (String × String)
of_id id = ("id", id) ∷ []

abbrev pub target_of : TopicCall → Target
target_of root_topics_public = target false "GET" "/topics" []
target_of root_topics_private = target true "GET" "/topics" []
target_of (topic_public id) = target false "GET" "/topics/{id}" (of_id id)
target_of (subtopics_public id) = target false "GET" "/topics/{id}/subtopics" (of_id id)
target_of (topic_private id) = target true "GET" "/topics/{id}" (of_id id)
target_of (subtopics_private id) = target true "GET" "/topics/{id}/subtopics" (of_id id)
target_of (put_state id state) =
    target true "PUT" "/topics/{id}/state/{state}" (("id", id) ∷ ("state", state) ∷ [])
target_of (put_release id payload) = target true "PUT" "/topics/{id}/release-date" (of_id id)
target_of (put_topic id payload) = target true "PUT" "/topics/{id}" (of_id id)

abbrev pub payload_of : TopicCall → Option String
payload_of (put_release id payload) = payload
payload_of (put_topic id payload) = payload
payload_of _ = none

abbrev pub url_of : String → TopicCall → String
url_of url call = concat url (expand (target_of call).path (target_of call).vars)

-- The service has an endpoint for a target: with its method and its path, and the path's variables are
-- those that the target gives values to.
pub record Registers {S : Type 0} (routes : List (Route S)) (t : Target) : Type 0 where
  pub route : Route S
  pub member : Memᴰ route routes
  pub same_method : route.method ≡ t.method
  pub same_path : route.path ≡ t.path
  pub same_names : map (λ (v : String × String). v.0) t.vars ≡ names t.path

module _ {S : Type 0} (transport : Transport S) (decoders : Decoders) (url : String)
    (headers : Headers) where
  -- The world after a call.
  abbrev pub after_call : TopicCall → S → S
  after_call root_topics_public s = (get_root_topics_public transport decoders url headers s).1
  after_call root_topics_private s = (get_root_topics_private transport decoders url headers s).1
  after_call (topic_public id) s = (get_topic_public transport decoders url headers id s).1
  after_call (subtopics_public id) s = (get_subtopics_public transport decoders url headers id s).1
  after_call (topic_private id) s = (get_topic_private transport decoders url headers id s).1
  after_call (subtopics_private id) s =
      (get_subtopics_private transport decoders url headers id s).1
  after_call (put_state id state) s =
      (put_topic_state_private transport decoders url headers id state s).1
  after_call (put_release id payload) s =
      (put_topic_release_private transport decoders url headers id payload s).1
  after_call (put_topic id payload) s =
      (put_topic_private transport decoders url headers id payload s).1
