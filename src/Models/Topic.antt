-- ===== src/Models/Topic.antt =====
-- models/topic.go: topics, updates and releases, and the checks on them. A nil pointer is `none`.
-- `encoding/json` and `time.Parse` enter as arguments.
pub mod Rules
use dp_topic_api.Prelude.{
  ℕ, String, Bool, true, false, ◌||◌, not, Option, none, some, List, ◌==◌, if◌then◌else◌,
}
use dp_topic_api.Errors.{
  GoError, Result, ok, err, empty_request_body, unable_to_read_message, topic_invalid_state,
  topic_missing_fields, invalid_release_date, topic_state_transition_not_allowed,
}
use dp_topic_api.Models.State.{parse_state, current_or_created, target_allowed}

-- `time.Time`: an instant, which the service only hands on.
pub record Time : Type 0 where
  pub nanos : ℕ

pub record LinkObject : Type 0 where
  pub href : String
  pub id : String

pub record TopicLinks : Type 0 where
  pub content : Option LinkObject
  pub self : Option LinkObject
  pub subtopics : Option LinkObject

pub record Topic : Type 0 where
  pub id : String
  pub description : String
  pub keywords : Option (List String)
  pub last_updated : Option Time
  pub links : Option TopicLinks
  pub release_date : Option Time
  pub state : String
  pub subtopic_ids : Option (List String)
  pub title : String
  pub slug : String

pub record TopicResponse : Type 0 where
  pub id : String
  pub current : Option Topic
  pub next : Option Topic

pub record PrivateSubtopics : Type 0 where
  pub total_count : ℕ
  pub private_items : Option (List TopicResponse)

pub record PublicSubtopics : Type 0 where
  pub total_count : ℕ
  pub public_items : Option (List Topic)

pub record TopicUpdate : Type 0 where
  pub description : String
  pub keywords : Option (List String)
  pub release_date : String
  pub state : String
  pub subtopic_ids : Option (List String)
  pub title : String
  pub slug : String

pub record TopicRelease : Type 0 where
  pub release_date : String

-- What `json.NewDecoder(r).Decode` makes of a request body.
pub data Decoded (A : Type 0) : Type 0 where
  eof : Decoded A
  malformed : Decoded A
  decoded : A → Decoded A

unfoldable pub read_release_date : (String → Decoded TopicRelease) → String → Result TopicRelease
read_release_date decode body = elim (decode body) [
  | eof ↦ err empty_request_body
  | malformed ↦ err unable_to_read_message
  | decoded release ↦ ok release
]

unfoldable pub read_topic_update : (String → Decoded TopicUpdate) → String → Result TopicUpdate
read_topic_update decode body = elim (decode body) [
  | eof ↦ err empty_request_body
  | malformed ↦ err unable_to_read_message
  | decoded update ↦ ok update
]

-- `Topic.Validate`
pub validate : Topic → GoError
validate t = elim (parse_state t.state).1 [ some _ ↦ some topic_invalid_state | none ↦ none ]

-- The second and the third check of `ValidateUpdate`; `parse_time` is `time.Parse(time.RFC3339, _)`.
abbrev date_error : Option Time → GoError
date_error none = some invalid_release_date
date_error (some _) = none

abbrev state_or_date_error : GoError → Option Time → GoError
state_or_date_error (some _) date = some topic_invalid_state
state_or_date_error none date = date_error date

unfoldable pub validate_update : (String → Option Time) → TopicUpdate → GoError
validate_update parse_time t =
    if t.state == "" || t.description == "" || t.title == "" || t.release_date == ""
    then some topic_missing_fields
    else state_or_date_error (parse_state t.state).1 (parse_time t.release_date)

unfoldable pub state_transition_allowed : Topic → String → Bool
state_transition_allowed t target =
    target_allowed (current_or_created (parse_state t.state)) (parse_state target)

unfoldable pub validate_transition_from : Topic → Topic → GoError
unfolding state_transition_allowed
validate_transition_from t existing =
    if t.state == ""
    then none
    else if state_transition_allowed existing t.state
    then none
    else some topic_state_transition_not_allowed

-- `TopicRelease.Validate`
unfoldable pub validate_release : (String → Option Time) → TopicRelease → Result Time
validate_release parse_time tr = elim (parse_time tr.release_date) [
  | none ↦ err invalid_release_date
  | some date ↦ ok date
]
