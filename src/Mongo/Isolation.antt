-- ===== src/Mongo/Isolation.antt =====
-- Publishing a topic while requests for other topics are being served: api/topic_private.go over
-- mongo/topic_store.go.
use dp_topic_api.Prelude.{
  ℕ, zero, suc, ◌≤◌, String, ◌≡◌, refl, sym, ap, ◌∙◌, ◌⊎◌, inl, inr, some-injective, subst, eq_iff,
  Option, none, some, List, [], ◌∷◌, All, All-append, arith,
}
use dp_topic_api.Errors.{Error, Result, ok}
use dp_topic_api.Http.{Request, var}
use dp_topic_api.Models.State.{string}
use dp_topic_api.Models.State.Lifecycle.{published, named-parse_state}
use dp_topic_api.Models.Topic.{Time, Topic, TopicResponse}
use dp_topic_api.Api.Env.{Env}
use dp_topic_api.Api.Private.{sync_next_and_current_topic}
use dp_topic_api.Api.Private.Publish.{published_document}
use dp_topic_api.Api.Concurrent.{
  Job, reading, writing, replied, put_topic_state, first_job, call_store, call_store_at, World,
  idle, Turn, arrives, calls, happen, proceed, read_for,
}
use dp_topic_api.Api.Concurrent.Ends.{
  get_elem?, calls_left, calls_of, IsEnded, none_left, proceed-calls_left,
}
use dp_topic_api.Mongo.{Driver, mongo_storer, upsert_topic}
use dp_topic_api.Mongo.Publishing.{
  DriverLaws, Upserted, not_written, written_in_error, written, kept, publication, get_topic_stored,
}
use dp_topic_api.Mongo.Frame.{
  FrameLaws, IsElsewhere, IsForAnother, first_job-IsElsewhere, call_store_at-IsElsewhere,
}

-- A run from the arrival of a request to publish, when none is being served.
abbrev pub publishing_run : {S : Type 0} → Env → Driver S → Request → List Turn → S → World S
publishing_run env driver req events s =
    proceed env (λ now. mongo_storer driver now) (arrives put_topic_state req ∷ events) (idle s)

module _ {S : Type 0} (stored : S → String → Option TopicResponse) (id : String) (t : TopicResponse)
    (next : Topic) where
  -- The document is as it was, or publishing it at some time has been stored.
  abbrev pub Published : S → Type 0
  Published s = (now : Time) × (stored s id ≡ some (kept (publication now t next)))

  -- What a request to publish the topic has done, with the document `t` at its arrival.
  pub data Phase (s : S) : Job → Type 0 where
    unread : stored s id ≡ some t → Phase s (reading id)
    read : stored s id ≡ some t → Phase s (writing id (published_document t next))
    refused : (e : Error) → stored s id ≡ some t → Phase s (replied (some e))
    lost : (e : Error) → Published s → Phase s (replied (some e))
    concluded : Published s → Phase s (replied none)

  -- How the request ends: with an error, and the document unchanged or its publication stored, or
  -- with no error and its publication stored.
  pub data Concludes (s : S) : Job → Type 0 where
    with_error : (e : Error) → (stored s id ≡ some t) ⊎ Published s → Concludes s (replied (some e))
    with_publication : Published s → Concludes s (replied none)

  Phase-Concludes : (s : S) (job : Job) → Phase s job → IsEnded job → Concludes s job
  Phase-Concludes s _ (Phase.unread at) h = elim h [ ]
  Phase-Concludes s _ (Phase.read at) h = elim h [ ]
  Phase-Concludes s _ (Phase.refused e at) h = Concludes.with_error e (inl at)
  Phase-Concludes s _ (Phase.lost e p) h = Concludes.with_error e (inr p)
  Phase-Concludes s _ (Phase.concluded p) h = Concludes.with_publication p

  Phase-unchanged : (s s' : S) (job : Job) → stored s' id ≡ stored s id → Phase s job → Phase s' job
  Phase-unchanged s s' _ same (Phase.unread at) = Phase.unread (same ∙ at)
  Phase-unchanged s s' _ same (Phase.read at) = Phase.read (same ∙ at)
  Phase-unchanged s s' _ same (Phase.refused e at) = Phase.refused e (same ∙ at)
  Phase-unchanged s s' _ same (Phase.lost e (now, at)) = Phase.lost e (now, same ∙ at)
  Phase-unchanged s s' _ same (Phase.concluded (now, at)) = Phase.concluded (now, same ∙ at)

  reads_next : t.next ≡ some next → read_for id (ok t) ≡ writing id (published_document t next)
  unfolding sync_next_and_current_topic string
  reads_next h = ground arith

  module _ (driver : Driver S) (laws : DriverLaws stored driver) (has_next : t.next ≡ some next)
      (env : Env) (now : Time) (s : S) where
    upserted-Phase :
        (r : Result ℕ × S)
        → driver.upsert_topics id (publication now t next) s ≡ r
        → Upserted stored s id (publication now t next) r
        → stored s id ≡ some t
        → Phase
            (call_store env (mongo_storer driver now) (writing id (published_document t next)) s).1
            (call_store env (mongo_storer driver now) (writing id (published_document t next)) s).0
    unfolding call_store upsert_topic
    upserted-Phase _ h (not_written e s' same) at = rw h (Phase.refused e (same id ∙ at))
    upserted-Phase _ h (written_in_error e s' w) at = rw h (Phase.lost e (now, w.now_kept))
    upserted-Phase _ h (written s' w) at = rw h (Phase.concluded (now, w.now_kept))

    call_store-Phase :
        (job : Job)
        → Phase s job
        → Phase
            (call_store env (mongo_storer driver now) job s).1
            (call_store env (mongo_storer driver now) job s).0
    unfolding call_store string
    call_store-Phase _ (Phase.unread at) =
        elim (get_topic_stored stored driver now laws id t s at) [
          | inl h ↦
              subst (λ job. Phase s job) (sym (ap (read_for id) h ∙ reads_next has_next))
                (Phase.read at)
          | inr (e, h) ↦ subst (λ job. Phase s job) (sym (ap (read_for id) h)) (Phase.refused e at)
        ]
    call_store-Phase _ (Phase.read at) = upserted-Phase _ refl (laws.upserts s id t _ _ at) at
    call_store-Phase _ (Phase.refused e at) = Phase.refused e at
    call_store-Phase _ (Phase.lost e p) = Phase.lost e p
    call_store-Phase _ (Phase.concluded p) = Phase.concluded p

  module _ (driver : Driver S) (laws : DriverLaws stored driver) (frame : FrameLaws stored driver)
      (has_next : t.next ≡ some next) (env : Env) where
    proceed-Phase :
        (events : List Turn) (job : Job) (others : List Job) (s : S)
        → Phase s job
        → All (IsElsewhere id) others
        → All (IsForAnother id) events
        → let w : World S =
            proceed env
              (λ now. mongo_storer driver now)
              events
              (record { jobs = job ∷ others; store = s }) in
          (job' : Job) × (get_elem? w.jobs 0 ≡ some job') × Phase w.store job'
    unfolding proceed happen call_store_at get_elem?
    proceed-Phase [] job others s phase elsewhere h = (job, refl, phase)
    proceed-Phase (arrives put req ∷ events) job others s phase elsewhere (p, h) =
        proceed-Phase events job _ s phase
          (All-append (IsElsewhere id) others _ elsewhere
            (first_job-IsElsewhere id env put req p, tt))
          h
    proceed-Phase (calls zero now ∷ events) job others s phase elsewhere (p, h) =
        proceed-Phase events _ others _ (call_store-Phase driver laws has_next env now s job phase)
          elsewhere h
    proceed-Phase (calls (suc n) now ∷ events) job others s phase elsewhere (p, h) =
        let (elsewhere', same) =
          call_store_at-IsElsewhere stored id driver frame env now others n s elsewhere in
        proceed-Phase events job _ _ (Phase-unchanged s _ job same phase) elsewhere' h

    ended_as :
        (o : Option Job) (job job' : Job) (s : S)
        → o ≡ some job
        → Phase s job
        → o ≡ some job'
        → IsEnded job'
        → (j : Job) × (o ≡ some j) × Concludes s j
    ended_as o job job' s at phase at' ended =
        let same : job' ≡ job = some-injective _ _ (sym at' ∙ at) in
        (job, at, Phase-Concludes s job phase (subst IsEnded same ended))

    publishing_lem :
        (req : Request)
        → var "id" req ≡ id
        → var "state" req ≡ "published"
        → first_job env put_topic_state req ≡ reading id
    unfolding first_job string
    publishing_lem req same e =
        let (code, p) = named-parse_state (var "state" req) (published, e) in
        rw (p, (eq_iff (var "state" req) "published").1 e) (ap reading same)

    -- A request to publish a topic that the database holds with a next document, arriving when none
    -- is being served, while any requests for other topics arrive and make their calls of the store
    -- between its own: where the driver keeps to its laws, once its turn has come twice the request is
    -- answered, with an error and the topic's document unchanged or its publication stored, or with
    -- 200 and its publication stored. Stored it means that both versions in the database are the next
    -- document in the state published, with some time of its last update, each time in milliseconds.
    pub proceed-Concludes :
        (req : Request) (events : List Turn) (s : S)
        → var "id" req ≡ id
        → var "state" req ≡ "published"
        → stored s id ≡ some t
        → All (IsForAnother id) events
        → 2 ≤ calls_of 0 events
        → (job : Job) × (get_elem? (publishing_run env driver req events s).jobs 0 ≡ some job)
          × Concludes (publishing_run env driver req events s).store job
    unfolding proceed happen get_elem?
    proceed-Concludes req events s same e at h enough =
        let first : first_job env put_topic_state req ≡ reading id = publishing_lem req same e in
        let (job, here, phase) =
          proceed-Phase events (first_job env put_topic_state req) [] s
            (subst (λ j. Phase s j) (sym first) (Phase.unread at)) tt h in
        let (job', here', fewer) =
          proceed-calls_left env (λ now. mongo_storer driver now) events _ 0
            (first_job env put_topic_state req) refl in
        let two : calls_left (first_job env put_topic_state req) ≡ 2 = ap calls_left first in
        ended_as _ job job' _ here phase here' (none_left job' (omega (arith, fewer, two, enough)))
