-- ===== src/Api/Public/Bounds.antt =====
-- The statuses that the handlers of api/topic_public.go send.
use dp_topic_api.Prelude.{String, Option, none, some, List, [], ◌∷◌, or_nil}
use dp_topic_api.Http.{Request}
use dp_topic_api.Store.{Storer}
use dp_topic_api.Models.Topic.{Topic, PublicSubtopics}
use dp_topic_api.Api.Action.{deref, gets}
use dp_topic_api.Api.Action.Bounds.{
  KeepsBounds, KeepsBounds-bind, KeepsBounds-gets, KeepsBounds-deref, KeepsBounds-elim, bounded,
}
use dp_topic_api.Api.Env.{Env}
use dp_topic_api.Api.Public.{
  append_current, get_topic_public_handler, get_subtopics_public_by_id,
  get_subtopics_public_handler, get_root_topics_public_handler, collect_public, answer_public,
  list_public, from_current,
}

module _ {S : Type 0} (storer : Storer S) (env : Env) where
  pub get_topic_public_handler-KeepsBounds :
      (req : Request) → KeepsBounds (get_topic_public_handler storer env req)
  unfolding get_topic_public_handler
  get_topic_public_handler-KeepsBounds req = search bounded

  collect_public-KeepsBounds :
      (ids : List String) (result : PublicSubtopics)
      → KeepsBounds (collect_public storer env ids result)
  unfolding collect_public
  collect_public-KeepsBounds [] result = search bounded
  collect_public-KeepsBounds (id ∷ ids) result =
      KeepsBounds-bind (gets (storer.get_topic id)) _ (KeepsBounds-gets (storer.get_topic id)) (
        KeepsBounds-elim (λ _. collect_public storer env ids result) _
          (λ _. collect_public-KeepsBounds ids result)
          (λ topic.
            KeepsBounds-bind (deref topic.current) _ (KeepsBounds-deref topic.current)
              (λ current. collect_public-KeepsBounds ids (append_current result current))))

  answer_public-KeepsBounds :
      (result : PublicSubtopics) → KeepsBounds (answer_public storer env result)
  unfolding answer_public
  answer_public-KeepsBounds result = search bounded

  list_public-KeepsBounds : (ids : List String) → KeepsBounds (list_public storer env ids)
  unfolding list_public
  list_public-KeepsBounds [] = search bounded
  list_public-KeepsBounds (id ∷ ids) =
      search (bounded, collect_public-KeepsBounds, answer_public-KeepsBounds)

  from_current-KeepsBounds : (o : Option Topic) → KeepsBounds (from_current storer env o)
  unfolding from_current
  from_current-KeepsBounds none = search bounded
  from_current-KeepsBounds (some t) = list_public-KeepsBounds (or_nil t.subtopic_ids)

  get_subtopics_public_by_id-KeepsBounds :
      (id : String) → KeepsBounds (get_subtopics_public_by_id storer env id)
  unfolding get_subtopics_public_by_id
  get_subtopics_public_by_id-KeepsBounds id = search (bounded, from_current-KeepsBounds)

  pub get_root_topics_public_handler-KeepsBounds :
      (req : Request) → KeepsBounds (get_root_topics_public_handler storer env req)
  unfolding get_root_topics_public_handler
  get_root_topics_public_handler-KeepsBounds req =
      get_subtopics_public_by_id-KeepsBounds "topic_root"

  pub get_subtopics_public_handler-KeepsBounds :
      (req : Request) → KeepsBounds (get_subtopics_public_handler storer env req)
  unfolding get_subtopics_public_handler
  get_subtopics_public_handler-KeepsBounds req =
      search (bounded, get_subtopics_public_by_id-KeepsBounds)
