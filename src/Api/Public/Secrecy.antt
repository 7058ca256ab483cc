-- ===== src/Api/Public/Secrecy.antt =====
-- The handlers of api/topic_public.go respond by what the public may see.
use dp_topic_api.Prelude.{String, refl, Option, none, some, List, [], ◌∷◌, ◌≡◌, ◌==◌, or_nil}
use dp_topic_api.Errors.{Result, ok, err}
use dp_topic_api.Http.{Request, var}
use dp_topic_api.Store.{Storer}
use dp_topic_api.Models.Topic.{Topic, TopicResponse, PublicSubtopics}
use dp_topic_api.Api.Action.{Action, deref, gets, ◌>>=◌}
use dp_topic_api.Api.Action.Rules.{reads}
use dp_topic_api.Api.Action.Views.{IsBlind, IsBlind-if, IsBlind-view, blind}
use dp_topic_api.Api.Respond.{current_topic, or_handle, finish}
use dp_topic_api.Api.Env.{Env}
use dp_topic_api.Api.View.{redact, AgreesInPublic}
use dp_topic_api.Api.Public.{
  topic_root, append_current, get_topic_public_handler, get_subtopics_public_by_id,
  get_subtopics_public_handler, get_root_topics_public_handler, collect_public, answer_public,
  list_public, from_current,
}
use dp_topic_api.Api.Public.Effects.{collect_public-KeepsStore}

module _ {S : Type 0} (storer : Storer S) (env : Env) where
  abbrev Blind : {A : Type 0} → Action S A → Type 0
  Blind = IsBlind (AgreesInPublic storer)

  -- A read of a topic that is used only through what the public may see of it.
  read_topic :
      {B : Type 0} (id : String) (f : Result TopicResponse → Action S B)
      (k : Result (Option Topic) → Action S B)
      → ((found : Result TopicResponse) → f found ≡ k (redact found))
      → ((seen : Result (Option Topic)) → Blind (k seen))
      → Blind (gets (storer.get_topic id) >>= f)
  read_topic id f k =
      IsBlind-view (AgreesInPublic storer) (storer.get_topic id) redact f k
        (λ s s' agree. agree.topics id)

  show_topic : Result (Option Topic) → Action S (Unit {0})
  show_topic seen = or_handle seen λ current. finish env.marshal (current_topic current)

  show_topic-IsBlind : (seen : Result (Option Topic)) → Blind (show_topic seen)
  unfolding show_topic
  show_topic-IsBlind seen = search blind

  show_topic_lem :
      (found : Result TopicResponse)
      → or_handle found (λ topic. finish env.marshal (current_topic topic.current))
        ≡ show_topic (redact found)
  unfolding show_topic
  show_topic_lem (ok t) = refl
  show_topic_lem (err e) = refl

  pub get_topic_public_handler-IsBlind :
      (req : Request) → Blind (get_topic_public_handler storer env req)
  unfolding get_topic_public_handler
  get_topic_public_handler-IsBlind req =
      IsBlind-if (AgreesInPublic storer) (var "id" req == topic_root) _ _ (search blind)
        (read_topic (var "id" req) _ show_topic show_topic_lem show_topic-IsBlind)

  add_next : List String → PublicSubtopics → Result (Option Topic) → Action S PublicSubtopics
  add_next ids result (err _) = collect_public storer env ids result
  add_next ids result (ok current) =
      deref current >>= λ topic. collect_public storer env ids (append_current result topic)

  add_next-IsBlind :
      (ids : List String) (result : PublicSubtopics)
      → ((r : PublicSubtopics) → Blind (collect_public storer env ids r))
      → (seen : Result (Option Topic)) → Blind (add_next ids result seen)
  unfolding add_next
  add_next-IsBlind ids result h (err e) = h result
  add_next-IsBlind ids result h (ok current) = search (blind, reads)

  collect_public-IsBlind :
      (ids : List String) (result : PublicSubtopics) → Blind (collect_public storer env ids result)
  unfolding collect_public add_next
  collect_public-IsBlind [] result = search blind
  collect_public-IsBlind (id ∷ ids) result =
      read_topic id _ (add_next ids result) same
        (add_next-IsBlind ids result (collect_public-IsBlind ids))
    where
      same :
          (found : Result TopicResponse)
          → (elim found [
            | err _ ↦ collect_public storer env ids result
            | ok topic ↦ deref topic.current >>= λ current.
                collect_public storer env ids (append_current result current)
          ])
            ≡ add_next ids result (redact found)
      same (ok t) = refl
      same (err e) = refl

  answer_public-IsBlind : (result : PublicSubtopics) → Blind (answer_public storer env result)
  unfolding answer_public
  answer_public-IsBlind result = search blind

  list_public-IsBlind : (ids : List String) → Blind (list_public storer env ids)
  unfolding list_public
  list_public-IsBlind [] = search blind
  list_public-IsBlind (id ∷ ids) =
      search (blind, collect_public-KeepsStore, collect_public-IsBlind, answer_public-IsBlind)

  from_current-IsBlind : (o : Option Topic) → Blind (from_current storer env o)
  unfolding from_current
  from_current-IsBlind none = search blind
  from_current-IsBlind (some t) = list_public-IsBlind (or_nil t.subtopic_ids)

  list_seen : Result (Option Topic) → Action S (Unit {0})
  list_seen seen = or_handle seen (from_current storer env)

  list_seen-IsBlind : (seen : Result (Option Topic)) → Blind (list_seen seen)
  unfolding list_seen
  list_seen-IsBlind seen = search (blind, from_current-IsBlind)

  list_seen_lem :
      (found : Result TopicResponse)
      → or_handle found (λ topic. from_current storer env topic.current) ≡ list_seen (redact found)
  unfolding list_seen
  list_seen_lem (ok t) = refl
  list_seen_lem (err e) = refl

  get_subtopics_public_by_id-IsBlind :
      (id : String) → Blind (get_subtopics_public_by_id storer env id)
  unfolding get_subtopics_public_by_id
  get_subtopics_public_by_id-IsBlind id = read_topic id _ list_seen list_seen_lem list_seen-IsBlind

  pub get_root_topics_public_handler-IsBlind :
      (req : Request) → Blind (get_root_topics_public_handler storer env req)
  unfolding get_root_topics_public_handler
  get_root_topics_public_handler-IsBlind req = get_subtopics_public_by_id-IsBlind "topic_root"

  pub get_subtopics_public_handler-IsBlind :
      (req : Request) → Blind (get_subtopics_public_handler storer env req)
  unfolding get_subtopics_public_handler
  get_subtopics_public_handler-IsBlind req = search (blind, get_subtopics_public_by_id-IsBlind)
