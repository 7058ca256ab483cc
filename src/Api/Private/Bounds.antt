-- ===== src/Api/Private/Bounds.antt =====
-- The statuses that the handlers of api/topic_private.go send.
use dp_topic_api.Prelude.{String, Bool, true, false, Option, none, some, List, [], ◌∷◌, or_nil}
use dp_topic_api.Errors.{GoError}
use dp_topic_api.Http.{Request}
use dp_topic_api.Store.{Storer}
use dp_topic_api.Models.Topic.{Time, Topic, TopicUpdate, PrivateSubtopics}
use dp_topic_api.Api.Action.{gets}
use dp_topic_api.Api.Action.Bounds.{
  KeepsBounds, KeepsBounds-bind, KeepsBounds-gets, KeepsBounds-elim, bounded,
}
use dp_topic_api.Api.Env.{Env}
use dp_topic_api.Api.Private.{
  append_topic, get_topic_private_handler, get_subtopics_private_by_id,
  get_subtopics_private_handler, get_root_topics_private_handler, collect_private, answer_private,
  list_private, from_next, write_release_date, put_topic_release_date_private_handler,
  publish_topic, report, publish_and_report, set_state, put_state, put_topic_state_private_handler,
  publish_if, apply_update, put_topic_private_handler,
}

module _ {S : Type 0} (storer : Storer S) (env : Env) where
  pub get_topic_private_handler-KeepsBounds :
      (req : Request) → KeepsBounds (get_topic_private_handler storer env req)
  unfolding get_topic_private_handler
  get_topic_private_handler-KeepsBounds req = search bounded

  collect_private-KeepsBounds :
      (ids : List String) (result : PrivateSubtopics)
      → KeepsBounds (collect_private storer env ids result)
  unfolding collect_private
  collect_private-KeepsBounds [] result = search bounded
  collect_private-KeepsBounds (id ∷ ids) result =
      KeepsBounds-bind (gets (storer.get_topic id)) _ (KeepsBounds-gets (storer.get_topic id)) (
        KeepsBounds-elim (λ _. collect_private storer env ids result) _
          (λ _. collect_private-KeepsBounds ids result)
          (λ topic. collect_private-KeepsBounds ids (append_topic result topic)))

  answer_private-KeepsBounds :
      (result : PrivateSubtopics) → KeepsBounds (answer_private storer env result)
  unfolding answer_private
  answer_private-KeepsBounds result = search bounded

  list_private-KeepsBounds : (ids : List String) → KeepsBounds (list_private storer env ids)
  unfolding list_private
  list_private-KeepsBounds [] = search bounded
  list_private-KeepsBounds (id ∷ ids) =
      search (bounded, collect_private-KeepsBounds, answer_private-KeepsBounds)

  from_next-KeepsBounds : (o : Option Topic) → KeepsBounds (from_next storer env o)
  unfolding from_next
  from_next-KeepsBounds none = search bounded
  from_next-KeepsBounds (some t) = list_private-KeepsBounds (or_nil t.subtopic_ids)

  get_subtopics_private_by_id-KeepsBounds :
      (id : String) → KeepsBounds (get_subtopics_private_by_id storer env id)
  unfolding get_subtopics_private_by_id
  get_subtopics_private_by_id-KeepsBounds id = search (bounded, from_next-KeepsBounds)

  pub get_root_topics_private_handler-KeepsBounds :
      (req : Request) → KeepsBounds (get_root_topics_private_handler storer env req)
  unfolding get_root_topics_private_handler
  get_root_topics_private_handler-KeepsBounds req =
      get_subtopics_private_by_id-KeepsBounds "topic_root"

  pub get_subtopics_private_handler-KeepsBounds :
      (req : Request) → KeepsBounds (get_subtopics_private_handler storer env req)
  unfolding get_subtopics_private_handler
  get_subtopics_private_handler-KeepsBounds req =
      search (bounded, get_subtopics_private_by_id-KeepsBounds)

  write_release_date-KeepsBounds :
      (id : String) (date : Time) → KeepsBounds (write_release_date storer env id date)
  unfolding write_release_date
  write_release_date-KeepsBounds id date = search bounded

  pub put_topic_release_date_private_handler-KeepsBounds :
      (req : Request) → KeepsBounds (put_topic_release_date_private_handler storer env req)
  unfolding put_topic_release_date_private_handler
  put_topic_release_date_private_handler-KeepsBounds req =
      search (bounded, write_release_date-KeepsBounds)

  publish_topic-KeepsBounds : (id : String) → KeepsBounds (publish_topic storer env id)
  unfolding publish_topic
  publish_topic-KeepsBounds id =
      KeepsBounds-bind (gets (storer.get_topic id)) _ (KeepsBounds-gets (storer.get_topic id))
        (KeepsBounds-elim _ _ (λ e. search bounded) (λ topic. search bounded))

  report-KeepsBounds : (e : GoError) → KeepsBounds (report storer env e)
  report-KeepsBounds none = search bounded
  report-KeepsBounds (some e) = search bounded

  publish_and_report-KeepsBounds : (id : String) → KeepsBounds (publish_and_report storer env id)
  unfolding publish_and_report
  publish_and_report-KeepsBounds id =
      search (bounded, publish_topic-KeepsBounds, report-KeepsBounds)

  set_state-KeepsBounds : (id state : String) → KeepsBounds (set_state storer env id state)
  unfolding set_state
  set_state-KeepsBounds id state = search bounded

  pub put_topic_state_private_handler-KeepsBounds :
      (req : Request) → KeepsBounds (put_topic_state_private_handler storer env req)
  unfolding put_topic_state_private_handler put_state
  put_topic_state_private_handler-KeepsBounds req =
      search (bounded, set_state-KeepsBounds, publish_and_report-KeepsBounds)

  publish_if-KeepsBounds :
      (publishes : Bool) (id : String) → KeepsBounds (publish_if storer env publishes id)
  unfolding publish_if
  publish_if-KeepsBounds true id = publish_and_report-KeepsBounds id
  publish_if-KeepsBounds false id = search bounded

  apply_update-KeepsBounds :
      (id : String) (u : TopicUpdate) → KeepsBounds (apply_update storer env id u)
  unfolding apply_update
  apply_update-KeepsBounds id u = search (bounded, publish_if-KeepsBounds) depth 9

  pub put_topic_private_handler-KeepsBounds :
      (req : Request) → KeepsBounds (put_topic_private_handler storer env req)
  unfolding put_topic_private_handler
  put_topic_private_handler-KeepsBounds req = search (bounded, apply_update-KeepsBounds)
