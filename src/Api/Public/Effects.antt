-- ===== src/Api/Public/Effects.antt =====
-- The handlers of api/topic_public.go leave the store alone, and send a response.
use dp_topic_api.Prelude.{String, Option, none, some, List, [], ◌∷◌, or_nil}
use dp_topic_api.Http.{Request}
use dp_topic_api.Store.{Storer}
use dp_topic_api.Models.Topic.{Topic, PublicSubtopics}
use dp_topic_api.Api.Action.{deref, gets}
use dp_topic_api.Api.Action.Rules.{
  KeepsStore, KeepsStore-bind, KeepsStore-gets, KeepsStore-deref, KeepsStore-elim, reads,
}
use dp_topic_api.Api.Action.Replies.{SendsResponse, answers}
use dp_topic_api.Api.Env.{Env}
use dp_topic_api.Api.Public.{
  append_current, get_topic_public_handler, get_subtopics_public_by_id,
  get_subtopics_public_handler, get_root_topics_public_handler, collect_public, answer_public,
  list_public, from_current,
}

module _ {S : Type 0} (storer : Storer S) (env : Env) where
  pub get_topic_public_handler-KeepsStore :
      (req : Request) → KeepsStore (get_topic_public_handler storer env req)
  unfolding get_topic_public_handler
  get_topic_public_handler-KeepsStore req = search reads

  pub collect_public-KeepsStore :
      (ids : List String) (result : PublicSubtopics)
      → KeepsStore (collect_public storer env ids result)
  unfolding collect_public
  collect_public-KeepsStore [] result = search reads
  collect_public-KeepsStore (id ∷ ids) result =
      KeepsStore-bind (gets (storer.get_topic id)) _ (KeepsStore-gets (storer.get_topic id)) (
        KeepsStore-elim (collect_public storer env ids result) _
          (collect_public-KeepsStore ids result)
          (λ topic.
            KeepsStore-bind (deref topic.current) _ (KeepsStore-deref topic.current)
              (λ current. collect_public-KeepsStore ids (append_current result current))))

  answer_public-KeepsStore :
      (result : PublicSubtopics) → KeepsStore (answer_public storer env result)
  unfolding answer_public
  answer_public-KeepsStore result = search reads

  list_public-KeepsStore : (ids : List String) → KeepsStore (list_public storer env ids)
  unfolding list_public
  list_public-KeepsStore [] = search reads
  list_public-KeepsStore (id ∷ ids) =
      search (reads, collect_public-KeepsStore, answer_public-KeepsStore)

  from_current-KeepsStore : (o : Option Topic) → KeepsStore (from_current storer env o)
  unfolding from_current
  from_current-KeepsStore none = search reads
  from_current-KeepsStore (some t) = list_public-KeepsStore (or_nil t.subtopic_ids)

  pub get_subtopics_public_by_id-KeepsStore :
      (id : String) → KeepsStore (get_subtopics_public_by_id storer env id)
  unfolding get_subtopics_public_by_id
  get_subtopics_public_by_id-KeepsStore id = search (reads, from_current-KeepsStore)

  pub get_root_topics_public_handler-KeepsStore :
      (req : Request) → KeepsStore (get_root_topics_public_handler storer env req)
  unfolding get_root_topics_public_handler
  get_root_topics_public_handler-KeepsStore req = get_subtopics_public_by_id-KeepsStore "topic_root"

  pub get_subtopics_public_handler-KeepsStore :
      (req : Request) → KeepsStore (get_subtopics_public_handler storer env req)
  unfolding get_subtopics_public_handler
  get_subtopics_public_handler-KeepsStore req =
      search (reads, get_subtopics_public_by_id-KeepsStore)

  pub get_topic_public_handler-SendsResponse :
      (req : Request) → SendsResponse (get_topic_public_handler storer env req)
  unfolding get_topic_public_handler
  get_topic_public_handler-SendsResponse req = search answers

  answer_public-SendsResponse :
      (result : PublicSubtopics) → SendsResponse (answer_public storer env result)
  unfolding answer_public
  answer_public-SendsResponse result = search answers

  list_public-SendsResponse : (ids : List String) → SendsResponse (list_public storer env ids)
  unfolding list_public
  list_public-SendsResponse [] = search answers
  list_public-SendsResponse (id ∷ ids) = search (answers, answer_public-SendsResponse)

  from_current-SendsResponse : (o : Option Topic) → SendsResponse (from_current storer env o)
  unfolding from_current
  from_current-SendsResponse none = search answers
  from_current-SendsResponse (some t) = list_public-SendsResponse (or_nil t.subtopic_ids)

  pub get_subtopics_public_by_id-SendsResponse :
      (id : String) → SendsResponse (get_subtopics_public_by_id storer env id)
  unfolding get_subtopics_public_by_id
  get_subtopics_public_by_id-SendsResponse id = search (answers, from_current-SendsResponse)

  pub get_root_topics_public_handler-SendsResponse :
      (req : Request) → SendsResponse (get_root_topics_public_handler storer env req)
  unfolding get_root_topics_public_handler
  get_root_topics_public_handler-SendsResponse req =
      get_subtopics_public_by_id-SendsResponse "topic_root"

  pub get_subtopics_public_handler-SendsResponse :
      (req : Request) → SendsResponse (get_subtopics_public_handler storer env req)
  unfolding get_subtopics_public_handler
  get_subtopics_public_handler-SendsResponse req =
      search (answers, get_subtopics_public_by_id-SendsResponse)
