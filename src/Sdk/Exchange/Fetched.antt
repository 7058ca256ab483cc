-- ===== src/Sdk/Exchange/Fetched.antt =====
-- `GetTopicPublic` of sdk/client.go on a service that runs for the website.
use dp_topic_api.Prelude.{ℕ, ◌≤◌, String, ◌≡◌, ◌≢◌, true, Option, none, some, List, [], ◌∷◌, arith}
use dp_topic_api.Prelude.Text.{concat}
use dp_topic_api.Errors.{Error, ok, err, topic_not_found}
use dp_topic_api.Models.Topic.{Topic, TopicResponse}
use dp_topic_api.Store.{Storer}
use dp_topic_api.Api.Respond.{current_topic, error_status}
use dp_topic_api.Api.Env.{Env}
use dp_topic_api.Api.Public.{topic_root, get_topic_public_handler}
use dp_topic_api.Api.Routes.{Route, get_route, public_routes}
use dp_topic_api.Sdk.Options.{Headers}
use dp_topic_api.Sdk.Call.{Transport, failure_of, unexpected_code, unreadable, not_sent, Reply}
use dp_topic_api.Sdk.Client.{Decoders, decode_reply, Got, got, nothing}
use dp_topic_api.Sdk.Exchange.{Link}
use dp_topic_api.Sdk.Exchange.Replies.{Replies}

abbrev pub zero_topic : Topic
zero_topic = record {
  id = "";
  description = "";
  keywords = none;
  last_updated = none;
  links = none;
  release_date = none;
  state = "";
  subtopic_ids = none;
  title = "";
  slug = "";
}

-- A topic as JSON carries it: the time of the last update is left out, and null changes nothing.
abbrev pub carried : Option Topic → Topic
carried none = zero_topic
carried (some t) = record t { last_updated = none }

-- What encoding/json documents of a topic that is written and read.
pub record Codec (decoders : Decoders) (env : Env) : Type 0 where
  pub reads_topic :
      (o : Option Topic) (payload : String)
      → env.marshal (current_topic o) ≡ ok payload
      → decoders.decode_topic payload ≡ ok (carried o)

-- The error of a reply with a code.
abbrev pub refusal : {A : Type 0} → ℕ → Got A
refusal code = nothing (failure_of code (unexpected_code code))

module _ {S : Type 0} (storer : Storer S) (env : Env) where
  -- What the client gets for topic `id`.
  pub data Fetches (id : String) (s : S) : Got Topic × S → Type 0 where
    hidden : id ≡ topic_root → Fetches id s (refusal 404, s)
    unknown :
        {e : Error}
        → id ≢ topic_root
        → storer.get_topic id s ≡ err e
        → Fetches id s (refusal (error_status (some e)), s)
    unmarshalled :
        {t : TopicResponse} {e : Error}
        → id ≢ topic_root
        → storer.get_topic id s ≡ ok t
        → env.marshal (current_topic t.current) ≡ err e
        → Fetches id s (refusal 500, s)
    fetched :
        {t : TopicResponse} {payload : String}
        → id ≢ topic_root
        → storer.get_topic id s ≡ ok t
        → env.marshal (current_topic t.current) ≡ ok payload
        → Fetches id s (got (carried t.current), s)
    broken_off :
        {t : TopicResponse} {payload : String} {e : Error}
        → id ≢ topic_root
        → storer.get_topic id s ≡ ok t
        → env.marshal (current_topic t.current) ≡ ok payload
        → Fetches id s (nothing (failure_of 200 (unreadable e)), s)
    unanswered : {e : Error} → Fetches id s (nothing (failure_of 500 (not_sent e)), s)

pub refused_status : (e : Error) → 400 ≤ error_status (some e)
unfolding error_status
refused_status topic_not_found = omega arith
refused_status _ = omega arith

module _ {S : Type 0} (storer : Storer S) (env : Env) (transport : Transport S)
    (decoders : Decoders) (url : String) (link : Link transport url (public_routes storer env))
    (codec : Codec decoders env) (headers : Headers) (id : String) (s : S)
    (segment : link.segment id ≡ true) where
  abbrev route : Route S
  route = get_route "/topics/{id}" (get_topic_public_handler storer env)

  abbrev vars : List (String × String)
  vars = ("id", id) ∷ []

  abbrev path : String
  path = concat url (concat "/topics/" id)

  -- The topic that the client makes of a reply.
  abbrev made_of : Reply × S → Got Topic × S
  made_of (reply, s') = (decode_reply "topic" decoders.decode_topic reply, s')
