-- ===== src/Api/Respond.antt =====
-- api/api.go: `WriteJSONBody` and `handleError`. `encoding/json` enters as the argument `marshal`.
pub mod Statuses
pub mod Reading
use dp_topic_api.Prelude.{
  ℕ, String, Bool, true, false, ◌||◌, Option, none, some, nat_eq, if◌then◌else◌,
}
use dp_topic_api.Errors.{
  Error, GoError, Result, ok, err, message, topic_not_found, content_not_found, not_found,
  unable_to_read_message, unable_to_parse_json, content_unrecognised_parameter, empty_request_body,
  invalid_release_date, topic_invalid_state, topic_missing_fields,
  topic_state_transition_not_allowed, internal_server, topic_upload_empty, other,
}
use dp_topic_api.Http.{ResponseWriter, write, set_on, http_error}
use dp_topic_api.Api.Action.{Action, done, respond, pure, Conn, ◌>>=◌, ◌>>◌}
use dp_topic_api.Models.Topic.{Topic, TopicResponse, PrivateSubtopics, PublicSubtopics}
use dp_topic_api.Models.Content.{ContentResponseApi, PrivateContentResponseApi}
use dp_topic_api.Models.Navigation.{Navigation}

-- The values that the handlers marshal; a topic is written through a pointer.
pub data Value : Type 0 where
  topic_response : TopicResponse → Value
  current_topic : Option Topic → Value
  private_subtopics : PrivateSubtopics → Value
  public_subtopics : PublicSubtopics → Value
  content_response : ContentResponseApi → Value
  private_content : PrivateContentResponseApi → Value
  navigation : Navigation → Value

-- The status for an error; 0 for nil.
unfoldable pub error_status : GoError → ℕ
error_status none = 0
error_status (some topic_not_found) = 404
error_status (some content_not_found) = 404
error_status (some not_found) = 404
error_status (some unable_to_read_message) = 500
error_status (some unable_to_parse_json) = 500
error_status (some content_unrecognised_parameter) = 400
error_status (some empty_request_body) = 400
error_status (some invalid_release_date) = 400
error_status (some topic_invalid_state) = 400
error_status (some topic_missing_fields) = 400
error_status (some topic_state_transition_not_allowed) = 403
error_status (some _) = 500

-- The text of the response: the error's own for a user error, else that of an internal error.
abbrev message_of : GoError → String
message_of none = ""
message_of (some e) = message e

unfoldable pub error_text : GoError → String
unfolding message error_status
error_text failure =
    let status = error_status failure in
    if nat_eq status 404 || nat_eq status 403 || nat_eq status 400
    then message_of failure
    else message internal_server

unfoldable pub handle_error : {S : Type 0} → GoError → Action S (Unit {0})
unfolding error_status error_text
handle_error failure = respond (http_error (error_text failure) (error_status failure))

-- `w.Write(payload)` with its error.
abbrev pub write_payload : {S : Type 0} → String → Action S GoError
write_payload payload c =
    done (write payload c.writer).1 (record c { writer = (write payload c.writer).0 })

-- What `WriteJSONBody` does with the result of `json.Marshal`.
abbrev pub write_marshalled : {S : Type 0} → Result String → Action S GoError
write_marshalled (err e) = do handle_error (some internal_server); pure (some e)
write_marshalled (ok payload) = write_payload payload

unfoldable pub write_json_body : {S : Type 0} → (Value → Result String) → Value → Action S GoError
unfolding write set_on
write_json_body marshal value = do
  respond (λ w. some (set_on "Content-Type" "application/json; charset=utf-8" w))
  write_marshalled (marshal value)

-- `if err != nil { handleError(…); return }`, and what follows it.
abbrev pub or_handle : {S A : Type 0} → Result A → (A → Action S (Unit {0})) → Action S (Unit {0})
or_handle (err e) k = handle_error (some e)
or_handle (ok a) k = k a

abbrev pub unless_error : {S : Type 0} → GoError → Action S (Unit {0}) → Action S (Unit {0})
unless_error (some e) k = handle_error (some e)
unless_error none k = k

-- The end of a read handler: the error of `WriteJSONBody` is only logged.
unfoldable pub finish : {S : Type 0} → (Value → Result String) → Value → Action S (Unit {0})
unfolding write_json_body
finish marshal value = do failed ← write_json_body marshal value; pure tt
