-- ===== src/Sdk/Endpoints/Reached.antt =====
-- The client asks for endpoints that the service has.
use dp_topic_api.Prelude.{String, ◌≡◌, refl, Option, none, List, Memᴰ, map}
use dp_topic_api.Errors.{Result, ok, err}
use dp_topic_api.Store.{Storer}
use dp_topic_api.Api.Env.{Env}
use dp_topic_api.Api.Routes.{Auth, Route, setup}
use dp_topic_api.Sdk.Options.{Headers}
use dp_topic_api.Sdk.Call.{Response, Transport, request_for, call_topic_api, take_result}
use dp_topic_api.Sdk.Client.{
  Decoders, fetch, put, get_root_topics_public, get_topic_public, get_subtopics_public,
  get_root_topics_private, get_topic_private, get_subtopics_private, put_topic_state_private,
  put_topic_release_private, put_topic_private,
}
use dp_topic_api.Sdk.Paths.{names}
use dp_topic_api.Sdk.Endpoints.{
  TopicCall, root_topics_public, root_topics_private, topic_public, subtopics_public, topic_private,
  subtopics_private, put_state, put_release, put_topic, Target, target_of, payload_of, url_of,
  Registers, after_call,
}

abbrev registered :
    {S : Type 0} {routes : List (Route S)} (t : Target) (route : Route S)
    → route.method ≡ t.method
    → route.path ≡ t.path
    → map (λ (v : String × String). v.0) t.vars ≡ names t.path
    → Memᴰ route routes
    → Registers routes t
registered t route m p n h = record {
  route = route;
  member = h;
  same_method = m;
  same_path = p;
  same_names = n;
}

module _ {S : Type 0} (storer : Storer S) (env : Env) (auth : Auth S) where
  target_of-Registers :
      (call : TopicCall)
      → Registers (setup storer env auth (target_of call).enable_private_endpoints) (target_of call)
  target_of-Registers root_topics_public =
      registered _ _ refl refl refl (Memᴰ.tail (Memᴰ.head refl))
  target_of-Registers root_topics_private =
      registered _ _ refl refl refl (Memᴰ.tail (Memᴰ.tail (Memᴰ.tail (Memᴰ.head refl))))
  target_of-Registers (topic_public id) =
      registered _ _ refl refl refl (Memᴰ.tail (Memᴰ.tail (Memᴰ.head refl)))
  target_of-Registers (subtopics_public id) =
      registered _ _ refl refl refl (Memᴰ.tail (Memᴰ.tail (Memᴰ.tail (Memᴰ.tail (Memᴰ.head refl)))))
  target_of-Registers (topic_private id) = registered _ _ refl refl refl (Memᴰ.head refl)
  target_of-Registers (subtopics_private id) =
      registered _ _ refl refl refl (Memᴰ.tail (Memᴰ.head refl))
  target_of-Registers (put_state id state) =
      registered _ _ refl refl refl
        (Memᴰ.tail (Memᴰ.tail (Memᴰ.tail (Memᴰ.tail (Memᴰ.tail (Memᴰ.tail (Memᴰ.head refl)))))))
  target_of-Registers (put_release id payload) =
      registered _ _ refl refl refl
        (Memᴰ.tail (Memᴰ.tail (Memᴰ.tail (Memᴰ.tail (Memᴰ.tail (Memᴰ.head refl))))))
  target_of-Registers (put_topic id payload) = registered _ _ refl refl refl (
      Memᴰ.tail
        (Memᴰ.tail (Memᴰ.tail (Memᴰ.tail (Memᴰ.tail (Memᴰ.tail (Memᴰ.tail (Memᴰ.head refl))))))))

module _ {S : Type 0} (transport : Transport S) (decoders : Decoders) (url : String)
    (headers : Headers) where
  take_result-world : (r : Result Response × S) → (take_result r).1 ≡ r.1
  take_result-world (ok resp, s) = refl
  take_result-world (err e, s) = refl

  call_topic_api-world :
      (path method : String) (payload : Option String) (s : S)
      → transport.parse_url path ≡ ok path
      → transport.new_request method path ≡ none
      → (call_topic_api transport path method headers payload s).1
        ≡ (transport.send (request_for transport path method headers payload) s).1
  unfolding call_topic_api
  call_topic_api-world path method payload s h k = rw (h, k) (take_result-world _)

  after_call-sent :
      (call : TopicCall) (s : S)
      → transport.parse_url (url_of url call) ≡ ok (url_of url call)
      → transport.new_request (target_of call).method (url_of url call) ≡ none
      → after_call transport decoders url headers call s
        ≡ (transport.send
            (request_for transport
              (url_of url call)
              (target_of call).method
              headers
              (payload_of call))
            s).1
  unfolding get_root_topics_public get_topic_public get_subtopics_public get_root_topics_private
      get_topic_private get_subtopics_private put_topic_state_private put_topic_release_private
      put_topic_private fetch put
  after_call-sent root_topics_public s h k = call_topic_api-world _ _ _ s h k
  after_call-sent root_topics_private s h k = call_topic_api-world _ _ _ s h k
  after_call-sent (topic_public id) s h k = call_topic_api-world _ _ _ s h k
  after_call-sent (subtopics_public id) s h k = call_topic_api-world _ _ _ s h k
  after_call-sent (topic_private id) s h k = call_topic_api-world _ _ _ s h k
  after_call-sent (subtopics_private id) s h k = call_topic_api-world _ _ _ s h k
  after_call-sent (put_state id state) s h k = call_topic_api-world _ _ _ s h k
  after_call-sent (put_release id payload) s h k = call_topic_api-world _ _ _ s h k
  after_call-sent (put_topic id payload) s h k = call_topic_api-world _ _ _ s h k

-- Each call of the client about topics sends one request, with the method of an endpoint that the
-- service registers in the configuration that the call is for, and with that endpoint's path, its
-- variables replaced by the call's arguments, wherever this URL parses to itself and makes a request.
pub after_call-Registers :
    {S : Type 0} (storer : Storer S) (env : Env) (auth : Auth S) (transport : Transport S)
    (decoders : Decoders) (url : String) (headers : Headers) (call : TopicCall) (s : S)
    → transport.parse_url (url_of url call) ≡ ok (url_of url call)
    → transport.new_request (target_of call).method (url_of url call) ≡ none
    → Registers (setup storer env auth (target_of call).enable_private_endpoints) (target_of call)
      × (after_call transport decoders url headers call s
          ≡ (transport.send
              (request_for transport
                (url_of url call)
                (target_of call).method
                headers
                (payload_of call))
              s).1)
after_call-Registers storer env auth transport decoders url headers call s h k = (
  target_of-Registers storer env auth call,
  after_call-sent transport decoders url headers call s h k,
)
