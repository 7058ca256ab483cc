-- ===== src/Api/Private.antt =====
-- api/topic_private.go: the handlers for publishing.
pub mod Publish
pub mod PutState
pub mod PutTopic
pub mod PutReleaseDate
pub mod Listing
pub mod Effects
pub mod Bounds
use dp_topic_api.Prelude.{
  ℕ, suc, ◌+◌, String, Bool, true, false, Option, none, some, List, [], ◌∷◌, ◌++◌, ◌==◌, nat_eq,
  or_nil, length, if◌then◌else◌,
}
use dp_topic_api.Errors.{Error, GoError, Result, ok, err, internal_server, not_found}
use dp_topic_api.Http.{Request, var, write_header}
use dp_topic_api.Models.State.{state_published, string, parse_state}
use dp_topic_api.Models.Topic.{
  Time, Topic, TopicResponse, TopicUpdate, PrivateSubtopics, read_release_date, read_topic_update,
  validate_update, validate_release,
}
use dp_topic_api.Store.{Storer}
use dp_topic_api.Api.Action.{Action, pure, deref, gets, update, try_update, respond, ◌>>=◌, ◌>>◌}
use dp_topic_api.Api.Respond.{
  Value, topic_response, private_subtopics, handle_error, or_handle, unless_error, finish,
}
use dp_topic_api.Api.Env.{Env}

abbrev pub append_topic : PrivateSubtopics → TopicResponse → PrivateSubtopics
append_topic result topic = record {
  total_count = result.total_count + 1;
  private_items = elim result.private_items [
    | none ↦ some (topic ∷ [])
    | some items ↦ some (items ++ topic ∷ [])
  ];
}

-- `syncNextAndCurrentTopic`: the two versions are one object.
unfoldable pub sync_next_and_current_topic : TopicResponse → TopicResponse
sync_next_and_current_topic topic = record {
  id = topic.id;
  next = topic.next;
  current = topic.next;
}

module _ {S : Type 0} (storer : Storer S) (env : Env) where
  unfoldable pub get_topic_private_handler : Request → Action S (Unit {0})
  get_topic_private_handler req = do
    found ← gets (storer.get_topic (var "id" req))
    or_handle found λ topic. finish env.marshal (topic_response topic)

  -- The loop of `getSubtopicsPrivateByID`: a subtopic that is not found is skipped.
  unfoldable pub collect_private : List String → PrivateSubtopics → Action S PrivateSubtopics
  collect_private [] result = pure result
  collect_private (subtopic_id ∷ rest) result = do
    found ← gets (storer.get_topic subtopic_id)
    elim found [
      | err _ ↦ collect_private rest result
      | ok topic ↦ collect_private rest (append_topic result topic)
    ]

  -- What follows the loop.
  answer_private : PrivateSubtopics → Action S (Unit {0})
  answer_private result =
      if nat_eq result.total_count 0
      then handle_error (some internal_server)
      else finish env.marshal (private_subtopics result)

  list_private : List String → Action S (Unit {0})
  list_private [] = handle_error (some not_found)
  list_private (subtopic_id ∷ rest) = do
    result ← collect_private (subtopic_id ∷ rest) (record { total_count = 0; private_items = none })
    answer_private result

  from_next : Option Topic → Action S (Unit {0})
  from_next none = handle_error (some internal_server)
  from_next (some next) = list_private (or_nil next.subtopic_ids)

  unfoldable pub get_subtopics_private_by_id : String → Action S (Unit {0})
  unfolding collect_private answer_private list_private from_next
  get_subtopics_private_by_id id = do
    found ← gets (storer.get_topic id)
    or_handle found λ topic. from_next topic.next

  unfoldable pub get_root_topics_private_handler : Request → Action S (Unit {0})
  unfolding get_subtopics_private_by_id
  get_root_topics_private_handler req = get_subtopics_private_by_id "topic_root"

  unfoldable pub get_subtopics_private_handler : Request → Action S (Unit {0})
  unfolding get_subtopics_private_by_id
  get_subtopics_private_handler req = get_subtopics_private_by_id (var "id" req)

  -- The handler past the checks of the request.
  write_release_date : String → Time → Action S (Unit {0})
  write_release_date id date = do
    failed ← update (storer.update_release_date id date)
    unless_error failed (respond (write_header 200))

  unfoldable pub put_topic_release_date_private_handler : Request → Action S (Unit {0})
  unfolding write_release_date
  put_topic_release_date_private_handler req =
      or_handle (read_release_date env.decode_release req.body) λ release.
        or_handle (validate_release env.parse_time release) (write_release_date (var "id" req))

  -- `publishTopic`, with the error that it returns.
  unfoldable pub publish_topic : String → Action S GoError
  unfolding sync_next_and_current_topic
  publish_topic id = do
    found ← gets (storer.get_topic id)
    elim found [
      | err e ↦ pure (some e)
      | ok topic ↦ do
        next ← deref topic.next
        let published = record next { state = string state_published }
        let new_topic = sync_next_and_current_topic (record topic { next = some published })
        try_update (storer.upsert_topic id new_topic)
    ]

  -- `if err := publishTopic(…); err != nil { handleError(…) }`, with no return.
  abbrev report : GoError → Action S (Unit {0})
  report none = pure tt
  report (some e) = handle_error (some e)

  pub publish_and_report : String → Action S (Unit {0})
  publish_and_report id = do failed ← publish_topic id; report failed

  set_state : String → String → Action S (Unit {0})
  set_state id state = do
    failed ← update (storer.update_state id state)
    unless_error failed (respond (write_header 200))

  -- The handler's body, for the path's variables.
  put_state : String → String → Action S (Unit {0})
  put_state id state = unless_error (parse_state state).1 (
      if state == string state_published
      then (do publish_and_report id; respond (write_header 200))
      else set_state id state)

  unfoldable pub put_topic_state_private_handler : Request → Action S (Unit {0})
  unfolding put_state publish_and_report set_state
  put_topic_state_private_handler req = put_state (var "id" req) (var "state" req)

  publish_if : Bool → String → Action S (Unit {0})
  publish_if true id = publish_and_report id
  publish_if false id = pure tt

  -- The handler past the checks of the request.
  apply_update : String → TopicUpdate → Action S (Unit {0})
  apply_update id topic_update = do
    missing ← gets (storer.check_topic_exists id)
    unless_error missing (do
      failed ← update (storer.update_topic env.topic_api_url id topic_update)
      unless_error failed (do
        publish_if (topic_update.state == string state_published) id
        respond (write_header 200)))

  unfoldable pub put_topic_private_handler : Request → Action S (Unit {0})
  unfolding apply_update publish_if publish_and_report
  put_topic_private_handler req =
      or_handle (read_topic_update env.decode_update req.body) λ topic_update.
        unless_error (validate_update env.parse_time topic_update)
          (apply_update (var "id" req) topic_update)
