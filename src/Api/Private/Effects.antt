-- ===== src/Api/Private/Effects.antt =====
-- The handlers of api/topic_private.go that read leave the store alone; all of them send a response.
use dp_topic_api.Prelude.{String, Option, none, some, List, [], ◌∷◌, or_nil}
use dp_topic_api.Http.{Request}
use dp_topic_api.Store.{Storer}
use dp_topic_api.Models.Topic.{Time, Topic, TopicUpdate, PrivateSubtopics}
use dp_topic_api.Api.Action.{gets}
use dp_topic_api.Api.Action.Rules.{
  KeepsStore, KeepsStore-bind, KeepsStore-gets, KeepsStore-elim, reads,
}
use dp_topic_api.Api.Action.Replies.{SendsResponse, answers}
use dp_topic_api.Api.Env.{Env}
use dp_topic_api.Api.Private.{
  append_topic, get_topic_private_handler, get_subtopics_private_by_id,
  get_subtopics_private_handler, get_root_topics_private_handler, collect_private, answer_private,
  list_private, from_next, put_topic_release_date_private_handler, write_release_date,
  put_topic_state_private_handler, put_state, set_state, put_topic_private_handler, apply_update,
}

module _ {S : Type 0} (storer : Storer S) (env : Env) where
  pub get_topic_private_handler-KeepsStore :
      (req : Request) → KeepsStore (get_topic_private_handler storer env req)
  unfolding get_topic_private_handler
  get_topic_private_handler-KeepsStore req = search reads

  collect_private-KeepsStore :
      (ids : List String) (result : PrivateSubtopics)
      → KeepsStore (collect_private storer env ids result)
  unfolding collect_private
  collect_private-KeepsStore [] result = search reads
  collect_private-KeepsStore (id ∷ ids) result =
      KeepsStore-bind (gets (storer.get_topic id)) _ (KeepsStore-gets (storer.get_topic id)) (
        KeepsStore-elim (collect_private storer env ids result) _
          (collect_private-KeepsStore ids result)
          (λ topic. collect_private-KeepsStore ids (append_topic result topic)))

  answer_private-KeepsStore :
      (result : PrivateSubtopics) → KeepsStore (answer_private storer env result)
  unfolding answer_private
  answer_private-KeepsStore result = search reads

  list_private-KeepsStore : (ids : List String) → KeepsStore (list_private storer env ids)
  unfolding list_private
  list_private-KeepsStore [] = search reads
  list_private-KeepsStore (id ∷ ids) =
      search (reads, collect_private-KeepsStore, answer_private-KeepsStore)

  from_next-KeepsStore : (o : Option Topic) → KeepsStore (from_next storer env o)
  unfolding from_next
  from_next-KeepsStore none = search reads
  from_next-KeepsStore (some t) = list_private-KeepsStore (or_nil t.subtopic_ids)

  get_subtopics_private_by_id-KeepsStore :
      (id : String) → KeepsStore (get_subtopics_private_by_id storer env id)
  unfolding get_subtopics_private_by_id
  get_subtopics_private_by_id-KeepsStore id = search (reads, from_next-KeepsStore)

  pub get_root_topics_private_handler-KeepsStore :
      (req : Request) → KeepsStore (get_root_topics_private_handler storer env req)
  unfolding get_root_topics_private_handler
  get_root_topics_private_handler-KeepsStore req =
      get_subtopics_private_by_id-KeepsStore "topic_root"

  pub get_subtopics_private_handler-KeepsStore :
      (req : Request) → KeepsStore (get_subtopics_private_handler storer env req)
  unfolding get_subtopics_private_handler
  get_subtopics_private_handler-KeepsStore req =
      search (reads, get_subtopics_private_by_id-KeepsStore)

  pub get_topic_private_handler-SendsResponse :
      (req : Request) → SendsResponse (get_topic_private_handler storer env req)
  unfolding get_topic_private_handler
  get_topic_private_handler-SendsResponse req = search answers

  answer_private-SendsResponse :
      (result : PrivateSubtopics) → SendsResponse (answer_private storer env result)
  unfolding answer_private
  answer_private-SendsResponse result = search answers

  list_private-SendsResponse : (ids : List String) → SendsResponse (list_private storer env ids)
  unfolding list_private
  list_private-SendsResponse [] = search answers
  list_private-SendsResponse (id ∷ ids) = search (answers, answer_private-SendsResponse)

  from_next-SendsResponse : (o : Option Topic) → SendsResponse (from_next storer env o)
  unfolding from_next
  from_next-SendsResponse none = search answers
  from_next-SendsResponse (some t) = list_private-SendsResponse (or_nil t.subtopic_ids)

  get_subtopics_private_by_id-SendsResponse :
      (id : String) → SendsResponse (get_subtopics_private_by_id storer env id)
  unfolding get_subtopics_private_by_id
  get_subtopics_private_by_id-SendsResponse id = search (answers, from_next-SendsResponse)

  pub get_root_topics_private_handler-SendsResponse :
      (req : Request) → SendsResponse (get_root_topics_private_handler storer env req)
  unfolding get_root_topics_private_handler
  get_root_topics_private_handler-SendsResponse req =
      get_subtopics_private_by_id-SendsResponse "topic_root"

  pub get_subtopics_private_handler-SendsResponse :
      (req : Request) → SendsResponse (get_subtopics_private_handler storer env req)
  unfolding get_subtopics_private_handler
  get_subtopics_private_handler-SendsResponse req =
      search (answers, get_subtopics_private_by_id-SendsResponse)

  write_release_date-SendsResponse :
      (id : String) (date : Time) → SendsResponse (write_release_date storer env id date)
  unfolding write_release_date
  write_release_date-SendsResponse id date = search answers

  pub put_topic_release_date_private_handler-SendsResponse :
      (req : Request) → SendsResponse (put_topic_release_date_private_handler storer env req)
  unfolding put_topic_release_date_private_handler
  put_topic_release_date_private_handler-SendsResponse req =
      search (answers, write_release_date-SendsResponse)

  set_state-SendsResponse : (id state : String) → SendsResponse (set_state storer env id state)
  unfolding set_state
  set_state-SendsResponse id state = search answers

  pub put_topic_state_private_handler-SendsResponse :
      (req : Request) → SendsResponse (put_topic_state_private_handler storer env req)
  unfolding put_topic_state_private_handler put_state
  put_topic_state_private_handler-SendsResponse req = search (answers, set_state-SendsResponse)

  apply_update-SendsResponse :
      (id : String) (u : TopicUpdate) → SendsResponse (apply_update storer env id u)
  unfolding apply_update
  apply_update-SendsResponse id u = search answers depth 9

  pub put_topic_private_handler-SendsResponse :
      (req : Request) → SendsResponse (put_topic_private_handler storer env req)
  unfolding put_topic_private_handler
  put_topic_private_handler-SendsResponse req = search (answers, apply_update-SendsResponse)
