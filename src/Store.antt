-- ===== src/Store.antt =====
-- store/datastore.go: the interface `Storer` between the handlers and the database, over the state
-- `S` that the database keeps. A read leaves the state alone; a write returns its error and the new
-- state. `upsert_topic` may dereference a nil pointer, which is `none`.
use dp_topic_api.Prelude.{ℕ, String, Option}
use dp_topic_api.Errors.{GoError, Result}
use dp_topic_api.Models.Topic.{Time, TopicResponse, TopicUpdate}
use dp_topic_api.Models.Content.{ContentResponse}

pub record Storer (S : Type 0) : Type 0 where
  pub get_topic : String → S → Result TopicResponse
  pub check_topic_exists : String → S → GoError
  pub get_content : String → ℕ → S → Result ContentResponse
  pub update_release_date : String → Time → S → GoError × S
  pub update_state : String → String → S → GoError × S
  pub upsert_topic : String → TopicResponse → S → Option (GoError × S)
  pub update_topic : String → String → TopicUpdate → S → GoError × S
