-- ===== src/Api/Private/Publish.antt =====
-- `publishTopic` of api/topic_private.go, and the reply that its callers send.
use dp_topic_api.Prelude.{String, ◌≡◌, refl, ◌∙◌, inl, inr, none, some, arith, Option-cases}
use dp_topic_api.Errors.{Error, GoError, ok, err, Result-cases}
use dp_topic_api.Http.{write_header}
use dp_topic_api.Models.State.{string}
use dp_topic_api.Models.Topic.{Topic, TopicResponse}
use dp_topic_api.Store.{Storer}
use dp_topic_api.Api.Action.{Conn, Run, done, panicked, respond, try_update, ◌>>◌}
use dp_topic_api.Api.Outcome.{IsFresh}
use dp_topic_api.Api.Respond.Statuses.{failed, accepted, handle_error_lem, accepted_lem}
use dp_topic_api.Api.Env.{Env}
use dp_topic_api.Api.Private.{publish_topic, publish_and_report}

-- The reply to an update that ended with `error`: 200, or the status of the error.
abbrev pub reply : {S : Type 0} → GoError → Conn S → Conn S
reply none c = accepted c
reply (some e) c = failed e c

-- What is stored when a topic is published: its next document, in the state published, twice.
abbrev pub published_document : TopicResponse → Topic → TopicResponse
published_document t next = record {
  id = t.id;
  current = some (record next { state = "published" });
  next = some (record next { state = "published" });
}

module _ {S : Type 0} (storer : Storer S) where
  -- What publishing the topic `id` may do on a connection, by what the store answers.
  pub data Publishes (id : String) (c : Conn S) : Run S (Unit {0}) → Type 0 where
    missing :
        {e : Error} → storer.get_topic id c.store ≡ err e → Publishes id c (done tt (failed e c))
    no_next :
        {t : TopicResponse}
        → storer.get_topic id c.store ≡ ok t
        → t.next ≡ none
        → Publishes id c (panicked c)
    stored :
        {t : TopicResponse} {next : Topic} {e : GoError} {s : S}
        → storer.get_topic id c.store ≡ ok t
        → t.next ≡ some next
        → storer.upsert_topic id (published_document t next) c.store ≡ some (e, s)
        → Publishes id c (done tt (reply e (record c { store = s })))
    store_panics :
        {t : TopicResponse} {next : Topic}
        → storer.get_topic id c.store ≡ ok t
        → t.next ≡ some next
        → storer.upsert_topic id (published_document t next) c.store ≡ none
        → Publishes id c (panicked c)

  module _ (env : Env) (id : String) (c : Conn S) where
    publish_missing :
        (e : Error)
        → storer.get_topic id c.store ≡ err e
        → publish_topic storer env id c ≡ done (some e) c
    unfolding publish_topic
    publish_missing e h = ground arith

    publish_no_next :
        (t : TopicResponse)
        → storer.get_topic id c.store ≡ ok t
        → t.next ≡ none
        → publish_topic storer env id c ≡ panicked c
    unfolding publish_topic
    publish_no_next t h k = ground arith

    publish_upsert :
        (t : TopicResponse) (next : Topic)
        → storer.get_topic id c.store ≡ ok t
        → t.next ≡ some next
        → publish_topic storer env id c
          ≡ try_update (storer.upsert_topic id (published_document t next)) c
    unfolding publish_topic string
    publish_upsert t next h k = ground arith

    -- After an error was sent, `w.WriteHeader(http.StatusOK)` is superfluous.
    write_header_after_error :
        (e : Error) (c' : Conn S) → respond (write_header 200) (failed e c') ≡ done tt (failed e c')
    unfolding write_header
    write_header_after_error e c' = refl

    report_then_ok :
        (e : GoError) (s : S)
        → IsFresh c
        → publish_topic storer env id c ≡ done e (record c { store = s })
        → (publish_and_report storer env id >> respond (write_header 200)) c
          ≡ done tt (reply e (record c { store = s }))
    unfolding publish_and_report
    report_then_ok none s fresh h = rw h (accepted_lem (record c { store = s }) fresh)
    report_then_ok (some e) s fresh h =
        rw (h, handle_error_lem (record c { store = s }) fresh e)
          (write_header_after_error e (record c { store = s }))

    panic_then_ok :
        publish_topic storer env id c ≡ panicked c
        → (publish_and_report storer env id >> respond (write_header 200)) c ≡ panicked c
    unfolding publish_and_report
    panic_then_ok h = rw h

    upsert-Publishes :
        (t : TopicResponse) (next : Topic)
        → IsFresh c
        → storer.get_topic id c.store ≡ ok t
        → t.next ≡ some next
        → Publishes id c ((publish_and_report storer env id >> respond (write_header 200)) c)
    upsert-Publishes t next fresh h k =
        elim (Option-cases (storer.upsert_topic id (published_document t next) c.store)) [
          | inl u ↦
              rw (panic_then_ok (publish_upsert t next h k ∙ rw (u, try_update)))
                (Publishes.store_panics h k u)
          | inr ((e, s), u) ↦
              rw (report_then_ok e s fresh (publish_upsert t next h k ∙ rw (u, try_update)))
                (Publishes.stored h k u)
        ]

    pub publish-Publishes :
        IsFresh c
        → Publishes id c ((publish_and_report storer env id >> respond (write_header 200)) c)
    publish-Publishes fresh = elim (Result-cases (storer.get_topic id c.store)) [
      | inr (e, h) ↦
          rw (report_then_ok (some e) c.store fresh (publish_missing e h)) (Publishes.missing h)
      | inl (t, h) ↦ elim (Option-cases t.next) [
        | inl k ↦ rw (panic_then_ok (publish_no_next t h k)) (Publishes.no_next h k)
        | inr (next, k) ↦ upsert-Publishes t next fresh h k
      ]
    ]
