-- ===== src/Api/Private/PutTopic.antt =====
-- `putTopicPrivateHandler` of api/topic_private.go.
use dp_topic_api.Prelude.{
  String, ◌≡◌, ◌≢◌, refl, inl, inr, none, some, String-cases, Option-cases, eq_iff,
}
use dp_topic_api.Errors.{Error, GoError, ok, err, Result-cases}
use dp_topic_api.Http.{Request, var}
use dp_topic_api.Models.State.{string}
use dp_topic_api.Models.Topic.{TopicUpdate, read_topic_update, validate_update}
use dp_topic_api.Models.Topic.Rules.{Verdict, validate_update-Verdict}
use dp_topic_api.Store.{Storer}
use dp_topic_api.Api.Action.{Conn, Run, done}
use dp_topic_api.Api.Outcome.{IsFresh}
use dp_topic_api.Api.Respond.Statuses.{failed, accepted, handle_error_lem, accepted_lem}
use dp_topic_api.Api.Env.{Env}
use dp_topic_api.Api.Private.{apply_update, publish_if, put_topic_private_handler}
use dp_topic_api.Api.Private.Publish.{Publishes, publish-Publishes}

module _ {S : Type 0} (storer : Storer S) (env : Env) where
  -- What a request to update topic `id` may do.
  pub data PutsTopic (id body : String) (c : Conn S) : Run S (Unit {0}) → Type 0 where
    unreadable :
        {e : Error}
        → read_topic_update env.decode_update body ≡ err e
        → PutsTopic id body c (done tt (failed e c))
    invalid :
        {u : TopicUpdate} {e : Error}
        → read_topic_update env.decode_update body ≡ ok u
        → Verdict env.parse_time u (some e)
        → PutsTopic id body c (done tt (failed e c))
    missing :
        {u : TopicUpdate} {e : Error}
        → read_topic_update env.decode_update body ≡ ok u
        → Verdict env.parse_time u none
        → storer.check_topic_exists id c.store ≡ some e
        → PutsTopic id body c (done tt (failed e c))
    not_updated :
        {u : TopicUpdate} {e : Error} {s : S}
        → read_topic_update env.decode_update body ≡ ok u
        → Verdict env.parse_time u none
        → storer.check_topic_exists id c.store ≡ none
        → storer.update_topic env.topic_api_url id u c.store ≡ (some e, s)
        → PutsTopic id body c (done tt (failed e (record c { store = s })))
    updated :
        {u : TopicUpdate} {s : S}
        → read_topic_update env.decode_update body ≡ ok u
        → Verdict env.parse_time u none
        → storer.check_topic_exists id c.store ≡ none
        → storer.update_topic env.topic_api_url id u c.store ≡ (none, s)
        → u.state ≢ "published"
        → PutsTopic id body c (done tt (accepted (record c { store = s })))
    published :
        {u : TopicUpdate} {s : S} {r : Run S Unit}
        → read_topic_update env.decode_update body ≡ ok u
        → Verdict env.parse_time u none
        → storer.check_topic_exists id c.store ≡ none
        → storer.update_topic env.topic_api_url id u c.store ≡ (none, s)
        → u.state ≡ "published"
        → Publishes storer id (record c { store = s }) r
        → PutsTopic id body c r

  module _ (id body : String) (c : Conn S) (fresh : IsFresh c) (u : TopicUpdate)
      (read : read_topic_update env.decode_update body ≡ ok u)
      (valid : Verdict env.parse_time u none) where
    after_update :
        (s : S)
        → storer.check_topic_exists id c.store ≡ none
        → storer.update_topic env.topic_api_url id u c.store ≡ (none, s)
        → PutsTopic id body c (apply_update storer env id u c)
    unfolding apply_update publish_if string
    after_update s exists h = elim (String-cases u.state "published") [
      | inl e ↦
          rw (exists, h, (eq_iff u.state "published").1 e)
            (PutsTopic.published read valid exists h e
              (publish-Publishes storer env id (record c { store = s }) fresh))
      | inr other ↦
          rw (exists, h, other, accepted_lem (record c { store = s }) fresh)
            (PutsTopic.updated read valid exists h
              (λ e. cc (other, (eq_iff u.state "published").1 e)))
    ]

    failed_update :
        (s : S) (e : Error)
        → storer.check_topic_exists id c.store ≡ none
        → storer.update_topic env.topic_api_url id u c.store ≡ (some e, s)
        → PutsTopic id body c (apply_update storer env id u c)
    unfolding apply_update
    failed_update s e exists h =
        rw (exists, h, handle_error_lem (record c { store = s }) fresh e)
          (PutsTopic.not_updated read valid exists h)

    no_topic :
        (e : Error)
        → storer.check_topic_exists id c.store ≡ some e
        → PutsTopic id body c (apply_update storer env id u c)
    unfolding apply_update
    no_topic e h = rw (h, handle_error_lem c fresh e) (PutsTopic.missing read valid h)

    update_outcome :
        (r : GoError × S)
        → storer.check_topic_exists id c.store ≡ none
        → storer.update_topic env.topic_api_url id u c.store ≡ r
        → PutsTopic id body c (apply_update storer env id u c)
    update_outcome (none, s) exists h = after_update s exists h
    update_outcome (some e, s) exists h = failed_update s e exists h

    apply_update-PutsTopic : PutsTopic id body c (apply_update storer env id u c)
    apply_update-PutsTopic = elim (Option-cases (storer.check_topic_exists id c.store)) [
      | inl exists ↦ update_outcome _ exists refl
      | inr (e, h) ↦ no_topic e h
    ]

  checked :
      (req : Request) (c : Conn S) (u : TopicUpdate) (v : GoError)
      → IsFresh c
      → read_topic_update env.decode_update req.body ≡ ok u
      → validate_update env.parse_time u ≡ v
      → Verdict env.parse_time u v
      → PutsTopic (var "id" req) req.body c (put_topic_private_handler storer env req c)
  unfolding put_topic_private_handler
  checked req c u none fresh read h verdict =
      rw (read, h) (apply_update-PutsTopic (var "id" req) req.body c fresh u read verdict)
  checked req c u (some e) fresh read h verdict =
      rw (read, h, handle_error_lem c fresh e) (PutsTopic.invalid read verdict)

  -- On a connection where nothing was sent yet, a request to update a topic does one of these, the
  -- checks in this order: an unreadable body, a faulty update, or a missing topic is refused and
  -- changes nothing; a failed update is reported; an update is written, and published if its state
  -- is "published". An error is never followed by a status of 200.
  pub put_topic-PutsTopic :
      (req : Request) (c : Conn S)
      → IsFresh c
      → PutsTopic (var "id" req) req.body c (put_topic_private_handler storer env req c)
  put_topic-PutsTopic req c fresh =
      elim (Result-cases (read_topic_update env.decode_update req.body)) [
        | inl (u, read) ↦
            checked req c u _ fresh read refl (validate_update-Verdict env.parse_time u)
        | inr (e, h) ↦
            let run : put_topic_private_handler storer env req c ≡ done tt (failed e c) =
              unfold put_topic_private_handler in rw (h) (handle_error_lem c fresh e) in
            rw run (PutsTopic.unreadable h)
      ]
