-- ===== src/Sdk/Exchange/Published.antt =====
-- `PutTopicStatePrivate` of sdk/client_private.go, which publishes a topic, on a service that runs for
-- publishing: through the network, the checks, the handler and the store to the database.
use dp_topic_api.Prelude.{String, ◌≡◌, true, Option, none, some, List, [], ◌∷◌}
use dp_topic_api.Prelude.Text.{concat}
use dp_topic_api.Errors.{Error}
use dp_topic_api.Http.{Request}
use dp_topic_api.Models.Topic.{Time, Topic, TopicResponse}
use dp_topic_api.Api.Action.{Conn, Run}
use dp_topic_api.Api.Respond.{error_status}
use dp_topic_api.Api.Respond.Statuses.{failed}
use dp_topic_api.Api.Env.{Env}
use dp_topic_api.Api.Private.{put_topic_state_private_handler}
use dp_topic_api.Api.Routes.{
  Auth, AuthLaws, Route, put_route, private_routes, update_permission, is_authenticated,
  is_authorised,
}
use dp_topic_api.Api.Routes.Guards.{admitted}
use dp_topic_api.Mongo.{Driver, mongo_storer}
use dp_topic_api.Mongo.Publishing.{DriverLaws, Replaced, publication}
use dp_topic_api.Mongo.Again.{Settled}
use dp_topic_api.Sdk.Options.{Headers}
use dp_topic_api.Sdk.Call.{
  Transport, Outgoing, failure_of, unexpected_code, unreadable, not_sent, Reply, answered,
  ResponseInfo, request_for,
}
use dp_topic_api.Sdk.Client.{Decoders}
use dp_topic_api.Sdk.Exchange.{Link, Carries}
use dp_topic_api.Sdk.Exchange.Replies.{Replies}

-- The request that the client sends to publish topic `id`.
abbrev pub publishing_request : {S : Type 0} → Transport S → String → Headers → String → Outgoing
publishing_request transport url headers id =
    request_for transport (concat url (concat "/topics/" (concat id "/state/published"))) "PUT"
      headers none

module _ {S : Type 0} (stored : S → String → Option TopicResponse) where
  -- What the client's call to publish topic `id` may do: return an error with the status of an error
  -- of the service, or one with status 500 where no response arrives, with nothing changed or the
  -- publication stored; or, with the publication stored, return no error, or the error of reading
  -- the response's body.
  pub data PublishesOver (now : Time) (id : String) (t : TopicResponse) (next : Topic) (s : S)
      : Reply × S → Type 0 where
    refused :
        (e : Error) (info : ResponseInfo) (s' : S)
        → info.status ≡ error_status (some e)
        → Settled stored now id t next s s'
        → PublishesOver now id t next s (
          Reply.failed
              (some info)
              (failure_of (error_status (some e)) (unexpected_code (error_status (some e)))),
          s',
        )
    published :
        (info : ResponseInfo) (s' : S)
        → info.status ≡ 200
        → Replaced stored s id (publication now t next) s'
        → PublishesOver now id t next s (answered info, s')
    broken_off :
        (info : ResponseInfo) (e : Error) (s' : S)
        → info.status ≡ 200
        → Replaced stored s id (publication now t next) s'
        → PublishesOver now id t next s
            (Reply.failed (some info) (failure_of 200 (unreadable e)), s')
    unanswered :
        (e : Error) (s' : S)
        → Settled stored now id t next s s'
        → PublishesOver now id t next s (Reply.failed none (failure_of 500 (not_sent e)), s')

module _ {S : Type 0} (stored : S → String → Option TopicResponse) (driver : Driver S) (now : Time)
    (laws : DriverLaws stored driver) (env : Env) (auth : Auth S) (auth_laws : AuthLaws auth)
    (transport : Transport S) (decoders : Decoders) (url : String)
    (link : Link transport url (private_routes (mongo_storer driver now) env auth))
    (headers : Headers) (id : String) (segment : link.segment id ≡ true)
    (states : link.segment "published" ≡ true) where
  abbrev handler : Request → Conn S → Run S (Unit {0})
  handler = put_topic_state_private_handler (mongo_storer driver now) env

  abbrev route : Route S
  route =
      put_route "/topics/{id}/state/{state}"
        (is_authenticated auth (is_authorised auth update_permission handler))

  abbrev vars : List (String × String)
  vars = ("id", id) ∷ ("state", "published") ∷ []

  abbrev sent_request : Outgoing
  sent_request = publishing_request transport url headers id

  module _ (s : S) (t : TopicResponse) (next : Topic)
      (admits : (req : Request)
        → Carries
            (publishing_request transport url headers id)
            (("id", id) ∷ ("state", "published") ∷ [])
            req
        → admitted auth_laws update_permission req ≡ true)
      (held : stored s id ≡ some t) (has_next : t.next ≡ some next) where
    -- The request as the endpoint takes it.
    abbrev asked : Request
    asked = record { method = "PUT"; path = ""; vars = vars; query = []; header = []; body = "" }
