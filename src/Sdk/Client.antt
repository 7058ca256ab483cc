-- ===== src/Sdk/Client.antt =====
-- sdk/client.go and sdk/client_private.go: the calls of the client. `encoding/json` enters as the
-- record `Decoders`; the client's state is its URL.
use dp_topic_api.Prelude.{String, Option, none, some}
use dp_topic_api.Prelude.Text.{concat}
use dp_topic_api.Errors.{Result, ok, err}
use dp_topic_api.Models.Topic.{Topic, TopicResponse, PrivateSubtopics, PublicSubtopics}
use dp_topic_api.Models.Navigation.{Navigation}
use dp_topic_api.Sdk.Options.{Headers, Options, language_string}
use dp_topic_api.Sdk.Call.{
  Transport, Failure, failure_of, undecodable, no_language, Reply, answered, failed, call_topic_api,
}

-- `json.Unmarshal` into each type; nil bytes are the empty text.
pub record Decoders : Type 0 where
  pub decode_topic : String → Result Topic
  pub decode_topic_response : String → Result TopicResponse
  pub decode_public_subtopics : String → Result PublicSubtopics
  pub decode_private_subtopics : String → Result PrivateSubtopics
  pub decode_navigation : String → Result Navigation

-- A document, or nil with an error.
pub data Got (A : Type 0) : Type 0 where
  got : A → Got A
  nothing : Failure → Got A

abbrev bytes : Option String → String
bytes none = ""
bytes (some text) = text

module _ {A : Type 0} where
  abbrev decoded_as : String → Result A → Got A
  decoded_as what (ok a) = got a
  decoded_as what (err e) = nothing (failure_of 0 (undecodable what e))

  abbrev pub decode_reply : String → (String → Result A) → Reply → Got A
  decode_reply what decode (answered info) = decoded_as what (decode (bytes info.body))
  decode_reply what decode (failed info failure) = nothing failure

module _ {S : Type 0} (transport : Transport S) where
  -- A GET whose answer is decoded.
  unfoldable pub fetch :
      {A : Type 0} → String → (String → Result A) → String → Headers → S → Got A × S
  fetch what decode path headers s =
      let (called, s') = call_topic_api transport path "GET" headers none s in
      (decode_reply what decode called.reply, s')

  -- A PUT, which returns what the call returns.
  unfoldable pub put : String → Headers → Option String → S → Reply × S
  put path headers payload s =
      let (called, s') = call_topic_api transport path "PUT" headers payload s in (called.reply, s')

module _ {S : Type 0} (transport : Transport S) (decoders : Decoders) (url : String) where
  unfoldable pub get_root_topics_public : Headers → S → Got PublicSubtopics × S
  unfolding fetch
  get_root_topics_public headers =
      fetch transport "rootTopics" decoders.decode_public_subtopics (concat url "/topics") headers

  unfoldable pub get_topic_public : Headers → String → S → Got Topic × S
  unfolding fetch
  get_topic_public headers id =
      fetch transport "topic" decoders.decode_topic (concat url (concat "/topics/" id)) headers

  unfoldable pub get_subtopics_public : Headers → String → S → Got PublicSubtopics × S
  unfolding fetch
  get_subtopics_public headers id =
      fetch transport "subtopics" decoders.decode_public_subtopics
        (concat url (concat "/topics/" (concat id "/subtopics"))) headers

  fetch_navigation : Headers → String → Option String → S → Got Navigation × S
  unfolding fetch
  fetch_navigation headers asked none s = (nothing (failure_of 0 (no_language asked)), s)
  fetch_navigation headers asked (some lang) s =
      fetch transport "navigation" decoders.decode_navigation
        (concat url (concat "/navigation?lang=" lang)) headers s

  unfoldable pub get_navigation_public : Headers → Options → S → Got Navigation × S
  unfolding fetch_navigation
  get_navigation_public headers options s =
      fetch_navigation headers options.lang (language_string options.lang) s

  unfoldable pub get_root_topics_private : Headers → S → Got PrivateSubtopics × S
  unfolding fetch
  get_root_topics_private headers =
      fetch transport "rootTopics" decoders.decode_private_subtopics (concat url "/topics") headers

  unfoldable pub get_topic_private : Headers → String → S → Got TopicResponse × S
  unfolding fetch
  get_topic_private headers id =
      fetch transport "topic" decoders.decode_topic_response (concat url (concat "/topics/" id))
        headers

  unfoldable pub get_subtopics_private : Headers → String → S → Got PrivateSubtopics × S
  unfolding fetch
  get_subtopics_private headers id =
      fetch transport "subtopics" decoders.decode_private_subtopics
        (concat url (concat "/topics/" (concat id "/subtopics"))) headers

  unfoldable pub put_topic_state_private : Headers → String → String → S → Reply × S
  unfolding put
  put_topic_state_private headers id state =
      put transport (concat url (concat "/topics/" (concat id (concat "/state/" state)))) headers
        none

  unfoldable pub put_topic_release_private : Headers → String → Option String → S → Reply × S
  unfolding put
  put_topic_release_private headers id payload =
      put transport (concat url (concat "/topics/" (concat id "/release-date"))) headers payload

  unfoldable pub put_topic_private : Headers → String → Option String → S → Reply × S
  unfolding put
  put_topic_private headers id payload =
      put transport (concat url (concat "/topics/" id)) headers payload
