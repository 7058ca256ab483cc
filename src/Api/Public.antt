-- ===== src/Api/Public.antt =====
-- api/topic_public.go: the handlers for the website, which show the current documents only.
pub mod Listing
pub mod Effects
pub mod Bounds
pub mod Secrecy
pub mod Single
use dp_topic_api.Prelude.{
  ℕ, ◌+◌, String, Option, none, some, List, [], ◌∷◌, ◌++◌, ◌==◌, nat_eq, or_nil, if◌then◌else◌,
}
use dp_topic_api.Errors.{Error, ok, err, topic_not_found, content_not_found, not_found}
use dp_topic_api.Http.{Request, var}
use dp_topic_api.Models.Topic.{Topic, PublicSubtopics}
use dp_topic_api.Store.{Storer}
use dp_topic_api.Api.Action.{Action, pure, deref, gets, ◌>>=◌}
use dp_topic_api.Api.Respond.{current_topic, public_subtopics, handle_error, or_handle, finish}
use dp_topic_api.Api.Env.{Env}

-- The document that holds the list of root topics.
abbrev pub topic_root : String
topic_root = "topic_root"

abbrev pub append_current : PublicSubtopics → Topic → PublicSubtopics
append_current result topic = record {
  total_count = result.total_count + 1;
  public_items = elim result.public_items [
    | none ↦ some (topic ∷ [])
    | some items ↦ some (items ++ topic ∷ [])
  ];
}

module _ {S : Type 0} (storer : Storer S) (env : Env) where
  unfoldable pub get_topic_public_handler : Request → Action S (Unit {0})
  get_topic_public_handler req =
      if var "id" req == topic_root then handle_error (some topic_not_found) else do
        found ← gets (storer.get_topic (var "id" req))
        or_handle found λ topic. finish env.marshal (current_topic topic.current)

  -- The loop of `getSubtopicsPublicByID`: a subtopic that is not found is skipped, and one that has
  -- no current document is dereferenced.
  unfoldable pub collect_public : List String → PublicSubtopics → Action S PublicSubtopics
  collect_public [] result = pure result
  collect_public (subtopic_id ∷ rest) result = do
    found ← gets (storer.get_topic subtopic_id)
    elim found [
      | err _ ↦ collect_public rest result
      | ok topic ↦ do
        current ← deref topic.current
        collect_public rest (append_current result current)
    ]

  -- What follows the loop.
  answer_public : PublicSubtopics → Action S (Unit {0})
  answer_public result =
      if nat_eq result.total_count 0
      then handle_error (some content_not_found)
      else finish env.marshal (public_subtopics result)

  list_public : List String → Action S (Unit {0})
  list_public [] = handle_error (some not_found)
  list_public (subtopic_id ∷ rest) = do
    result ← collect_public (subtopic_id ∷ rest) (record { total_count = 0; public_items = none })
    answer_public result

  from_current : Option Topic → Action S (Unit {0})
  from_current none = handle_error (some content_not_found)
  from_current (some current) = list_public (or_nil current.subtopic_ids)

  unfoldable pub get_subtopics_public_by_id : String → Action S (Unit {0})
  unfolding collect_public answer_public list_public from_current
  get_subtopics_public_by_id id = do
    found ← gets (storer.get_topic id)
    or_handle found λ topic. from_current topic.current

  unfoldable pub get_root_topics_public_handler : Request → Action S (Unit {0})
  unfolding get_subtopics_public_by_id
  get_root_topics_public_handler req = get_subtopics_public_by_id topic_root

  unfoldable pub get_subtopics_public_handler : Request → Action S (Unit {0})
  unfolding get_subtopics_public_by_id
  get_subtopics_public_handler req =
      if var "id" req == topic_root
      then handle_error (some topic_not_found)
      else get_subtopics_public_by_id (var "id" req)
