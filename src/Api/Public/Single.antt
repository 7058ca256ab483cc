-- ===== src/Api/Public/Single.antt =====
-- `getTopicPublicHandler` of api/topic_public.go.
use dp_topic_api.Prelude.{String, ◌≡◌, ◌≢◌, inl, inr, eq_iff, String-cases}
use dp_topic_api.Errors.{Error, ok, err, Result-cases, topic_not_found}
use dp_topic_api.Http.{Request, var}
use dp_topic_api.Models.Topic.{TopicResponse}
use dp_topic_api.Store.{Storer}
use dp_topic_api.Api.Action.{Conn, Run, done}
use dp_topic_api.Api.Outcome.{IsFresh}
use dp_topic_api.Api.Respond.{current_topic}
use dp_topic_api.Api.Respond.Statuses.{failed, finished, handle_error_lem, finish_lem}
use dp_topic_api.Api.Env.{Env}
use dp_topic_api.Api.Public.{topic_root, get_topic_public_handler}

module _ {S : Type 0} (storer : Storer S) (env : Env) (c : Conn S) where
  -- What a request for topic `id` gets.
  pub data ShowsTopic (id : String) : Run S (Unit {0}) → Type 0 where
    hidden : id ≡ topic_root → ShowsTopic id (done tt (failed topic_not_found c))
    unknown :
        {e : Error}
        → id ≢ topic_root
        → storer.get_topic id c.store ≡ err e
        → ShowsTopic id (done tt (failed e c))
    shown :
        {t : TopicResponse}
        → id ≢ topic_root
        → storer.get_topic id c.store ≡ ok t
        → ShowsTopic id (done tt (finished (env.marshal (current_topic t.current)) c))

  -- On a connection where nothing was sent yet, a public request for a topic gets 404 for the
  -- document that holds the root topics, the store's error for a topic that it does not return, and
  -- else the current document; where there is none, the nil pointer is what is marshalled.
  pub get_topic_public_handler-ShowsTopic :
      (req : Request)
      → IsFresh c
      → ShowsTopic (var "id" req) (get_topic_public_handler storer env req c)
  unfolding get_topic_public_handler
  get_topic_public_handler-ShowsTopic req fresh = elim (String-cases (var "id" req) topic_root) [
    | inl e ↦
        rw ((eq_iff (var "id" req) topic_root).1 e, handle_error_lem c fresh topic_not_found)
          (ShowsTopic.hidden e)
    | inr other ↦
        let ne : var "id" req ≢ topic_root =
          λ e. cc (other, (eq_iff (var "id" req) topic_root).1 e) in
        elim (Result-cases (storer.get_topic (var "id" req) c.store)) [
          | inl (t, h) ↦
              rw (other, h, finish_lem env.marshal (current_topic t.current) c fresh)
                (ShowsTopic.shown ne h)
          | inr (e, h) ↦ rw (other, h, handle_error_lem c fresh e) (ShowsTopic.unknown ne h)
        ]
  ]
