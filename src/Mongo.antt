-- ===== src/Mongo.antt =====
-- mongo/topic_store.go: the operations of the store, over the database driver. The driver is not of
-- this repository and enters as the record `Driver`, with a state that it keeps; `now` is the reading
-- of `time.Now()` in a call.
pub mod Projection
pub mod Updates
pub mod Publishing
pub mod Again
pub mod Origins
pub mod Frame
pub mod Isolation
pub mod Website
use dp_topic_api.Prelude.{
  ℕ, String, Bool, true, false, Option, none, some, List, [], ◌∷◌, ◌++◌, map, nat_eq, not, length,
  or_nil, if◌then◌else◌,
}
use dp_topic_api.Prelude.Text.{concat}
use dp_topic_api.Errors.{Error, GoError, Result, ok, err, topic_not_found, content_not_found}
use dp_topic_api.Models.Topic.{Time, Topic, TopicResponse, TopicUpdate}
use dp_topic_api.Models.Content.{ContentResponse}
use dp_topic_api.Store.{Storer}
use dp_topic_api.Api.Query.{
  query_spotlight_flag, query_articles_flag, query_bulletins_flag, query_methodologies_flag,
  query_methodology_articles_flag, query_static_datasets_flag, query_timeseries_flag, selects,
}

-- `FindOne`: a document, `ErrNoDocumentFound`, or another error.
pub data Found (A : Type 0) : Type 0 where
  found : A → Found A
  no_document : Found A
  failure : Error → Found A

pub data FieldValue : Type 0 where
  text : String → FieldValue
  time : Time → FieldValue
  texts : List String → FieldValue

-- `{"$set": …, "$unset": …}`, by the fields' dotted paths.
pub record Query : Type 0 where
  pub set : List (String × FieldValue)
  pub unset : Option (List String)

-- The calls on the collections of topics and of contents, each for the documents with one id. A
-- write returns the number of documents that matched.
pub record Driver (S : Type 0) : Type 0 where
  pub find_topic : String → S → Found TopicResponse
  pub count_topics : String → S → Result ℕ
  pub find_content : String → List String → S → Found ContentResponse
  pub update_topics : String → Query → S → Result ℕ × S
  pub upsert_topics : String → TopicResponse → S → Result ℕ × S

abbrev or_not_found : {A : Type 0} → Error → Found A → Result A
or_not_found missing (found a) = ok a
or_not_found missing no_document = err missing
or_not_found missing (failure e) = err e

abbrev count_error : Result ℕ → GoError
count_error (err e) = some e
count_error (ok count) = if nat_eq count 0 then some topic_not_found else none

-- What each write does with the driver's result.
abbrev matched : {S : Type 0} → Result ℕ × S → GoError × S
matched (result, s) = (count_error result, s)

abbrev selected : Bool → String → List String
selected true name = concat "next." name ∷ concat "current." name ∷ []
selected false name = []

-- The projection that `GetContent` asks for.
unfoldable pub content_select : ℕ → List String
content_select flags =
    ("ID" ∷ "next.id" ∷ "next.state" ∷ "current.id" ∷ "current.state" ∷ [])
    ++ selected (selects flags query_spotlight_flag) "spotlight"
    ++ selected (selects flags query_articles_flag) "articles"
    ++ selected (selects flags query_bulletins_flag) "bulletins"
    ++ selected (selects flags query_methodologies_flag) "methodologies"
    ++ selected (selects flags query_methodology_articles_flag) "methodology_articles"
    ++ selected (selects flags query_static_datasets_flag) "static_datasets"
    ++ selected (selects flags query_timeseries_flag) "timeseries"

-- `topic.Keywords != nil && len(*topic.Keywords) > 0`
abbrev pub has_items : Option (List String) → Bool
has_items o = not (nat_eq (length (or_nil o)) 0)

abbrev set_optional : Bool → List (String × FieldValue) → List (String × FieldValue)
set_optional true fields = fields
set_optional false fields = []

abbrev unset_optional : Bool → List String → List String
unset_optional true paths = []
unset_optional false paths = paths

abbrev unless_empty : List String → Option (List String)
unless_empty [] = none
unless_empty (path ∷ paths) = some (path ∷ paths)

-- `fmt.Sprintf("%s/topics/%s…", host, id)`
abbrev pub topic_url : String → String → String → String
topic_url host id rest = concat host (concat "/topics/" (concat id rest))

unfoldable pub create_topic_update_query : Time → String → String → TopicUpdate → Query
create_topic_update_query now host id t = record {
  set =
      ("next.description", text t.description)
      ∷ ("next.last_updated", time now)
      ∷ ("next.links.content.href", text (topic_url host id "/content"))
      ∷ ("next.links.self.href", text (topic_url host id ""))
      ∷ ("next.links.self.id", text id)
      ∷ ("next.release_date", text t.release_date)
      ∷ ("next.state", text t.state)
      ∷ ("next.title", text t.title)
      ∷ (set_optional (has_items t.keywords) (("next.keywords", texts (or_nil t.keywords)) ∷ [])
          ++ set_optional (has_items t.subtopic_ids) (
              ("next.subtopics_ids", texts (or_nil t.subtopic_ids))
              ∷ ("next.links.subtopics.href", text (topic_url host id "/subtopics"))
              ∷ []));
  unset = unless_empty (
      unset_optional (has_items t.keywords) ("next.keywords" ∷ [])
      ++ unset_optional (has_items t.subtopic_ids)
          ("next.subtopics_ids" ∷ "next.links.subtopics" ∷ []));
}

-- The two stamps of `UpsertTopic`, each through a pointer that may be nil.
abbrev stamped : Time → TopicResponse → Option Topic → Option Topic → Option TopicResponse
stamped now t none next = none
stamped now t (some current) none = none
stamped now t (some current) (some next) = some (record {
  id = t.id;
  current = some (record current { last_updated = some now });
  next = some (record next { last_updated = some now });
})

module _ {S : Type 0} (driver : Driver S) (now : Time) where
  unfoldable pub get_topic : String → S → Result TopicResponse
  get_topic id s = or_not_found topic_not_found (driver.find_topic id s)

  unfoldable pub check_topic_exists : String → S → GoError
  check_topic_exists id s = count_error (driver.count_topics id s)

  unfoldable pub get_content : String → ℕ → S → Result ContentResponse
  unfolding content_select
  get_content id flags s =
      or_not_found content_not_found (driver.find_content id (content_select flags) s)

  unfoldable pub update_release_date : String → Time → S → GoError × S
  update_release_date id date s =
      let query : Query = record {
        set = ("next.release_date", time date) ∷ ("next.last_updated", time now) ∷ [];
        unset = none;
      } in
      matched (driver.update_topics id query s)

  unfoldable pub update_state : String → String → S → GoError × S
  update_state id state s =
      let query : Query = record {
        set = ("next.state", text state) ∷ ("next.last_updated", time now) ∷ [];
        unset = none;
      } in
      matched (driver.update_topics id query s)

  abbrev upsert_stamped : String → Option TopicResponse → S → Option (GoError × S)
  upsert_stamped id none s = none
  upsert_stamped id (some t) s = some (matched (driver.upsert_topics id t s))

  unfoldable pub upsert_topic : String → TopicResponse → S → Option (GoError × S)
  upsert_topic id t s = upsert_stamped id (stamped now t t.current t.next) s

  unfoldable pub update_topic : String → String → TopicUpdate → S → GoError × S
  unfolding create_topic_update_query
  update_topic host id t s =
      matched (driver.update_topics id (create_topic_update_query now host id t) s)

  abbrev pub mongo_storer : Storer S
  mongo_storer = record {
    get_topic = get_topic;
    check_topic_exists = check_topic_exists;
    get_content = get_content;
    update_release_date = update_release_date;
    update_state = update_state;
    upsert_topic = upsert_topic;
    update_topic = update_topic;
  }
