-- ===== src/Mongo/Origins.antt =====
-- Where the current documents, which the website shows, come from when requests to change topics are
-- served at once: the handlers of api/topic_private.go over the store of mongo/topic_store.go.
pub mod Calls
pub mod Runs
use dp_topic_api.Prelude.{
  ℕ, zero, suc, String, String-cases, eq_iff, ◌≡◌, ◌⊎◌, inl, inr, refl, sym, ap, subst,
  some-injective, ◌∙◌, Bool, true, false, ◌==◌, if◌then◌else◌, Option, Option-cases, none, some,
  List, [], ◌∷◌, ◌++◌, Memᴰ, All, All-append,
}
use dp_topic_api.Errors.{Error, topic_not_found, GoError, Result, ok, err, Result-cases}
use dp_topic_api.Http.{Request, var}
use dp_topic_api.Models.State.{string}
use dp_topic_api.Models.Topic.{
  Time, Topic, TopicResponse, TopicUpdate, read_release_date, read_topic_update, validate_release,
}
use dp_topic_api.Store.{Storer}
use dp_topic_api.Api.Env.{Env}
use dp_topic_api.Api.Private.Publish.{published_document}
use dp_topic_api.Api.Concurrent.{
  Job, setting, dating, checking, updating, reading, writing, replied, crashed, Put,
  put_topic_state, put_topic_release_date, put_topic, first_job, call_store, call_store_at, World,
  Turn, or_reply, unless_replied, arrives, calls, happen, proceed, stores,
}
use dp_topic_api.Mongo.{
  Found, found, no_document, failure, or_not_found, text, time, Driver, Query,
  create_topic_update_query, mongo_storer, matched, get_topic, upsert_topic, update_topic,
  update_state, update_release_date,
}
use dp_topic_api.Mongo.Publishing.{kept, kept_topic}
use dp_topic_api.Mongo.Updates.{
  all_under, paths, one_field-all_under, create_topic_update_query-conflict_free,
}

-- The arrival of a request that asks to publish topic `k`.
pub data AsksToPublish (env : Env) (k : String) : Turn → Type 0 where
  by_state :
      {req : Request}
      → var "id" req ≡ k
      → var "state" req ≡ "published"
      → AsksToPublish env k (arrives put_topic_state req)
  by_update :
      {req : Request} {u : TopicUpdate}
      → var "id" req ≡ k
      → read_topic_update env.decode_update req.body ≡ ok u
      → u.state ≡ "published"
      → AsksToPublish env k (arrives put_topic req)

ok_is_found :
    {A : Type 0} (missing : Error) (f : Found A) (a : A)
    → or_not_found missing f ≡ ok a
    → f ≡ found a
ok_is_found missing (found b) a h = cc (h)
ok_is_found missing no_document a h = cc (h)
ok_is_found missing (failure e) a h = cc (h)

module _ {S : Type 0} (stored : S → String → Option TopicResponse) where
  -- What is used of the driver, where `stored` reads the topics that the database holds: a document
  -- that is found is held; an update of fields of the next documents makes no document and leaves
  -- the current ones alone; after an upsert each document is an old one or the given one, as it is
  -- kept. A write may do this and report an error.
  pub record WriteLaws (driver : Driver S) : Type 0 where
    pub finds :
        (s : S) (id : String) (t : TopicResponse)
        → driver.find_topic id s ≡ found t
        → stored s id ≡ some t
    pub updates :
        (s : S) (id : String) (query : Query)
        → all_under "next." (paths query) ≡ true
        → (k : String) (t' : TopicResponse) → stored (driver.update_topics id query s).1 k ≡ some t'
        → (t : TopicResponse) × (stored s k ≡ some t) × (t'.current ≡ t.current)
    pub upserts :
        (s : S) (id : String) (u : TopicResponse) (k : String) (t' : TopicResponse)
        → stored (driver.upsert_topics id u s).1 k ≡ some t'
        → (stored s k ≡ some t') ⊎ ((k ≡ id) × (t' ≡ kept u))

  pub get_topic-stored :
      (driver : Driver S)
      → WriteLaws driver
      → (now : Time) (s : S) (id : String) (t : TopicResponse) → get_topic driver now id s ≡ ok t
      → stored s id ≡ some t
  unfolding get_topic
  get_topic-stored driver laws now s id t h = laws.finds s id t (ok_is_found topic_not_found _ t h)

  -- How topic `k` may have got its current document: it had it in the database at the start, or the
  -- topic's publication was asked for, and it is the next document that the topic had in one of the
  -- databases of `Past`, in the state published with a time of `Ticked`, each
  -- time in milliseconds.
  pub data Origin (start : S) (Past : S → Type 0) (Asked : String → Type 0) (Ticked : Time → Type 0)
      (k : String) (current : Option Topic) : Type 0 where
    initial :
        {t : TopicResponse}
        → stored start k ≡ some t
        → current ≡ t.current
        → Origin start Past Asked Ticked k current
    from_next :
        {s : S} {t : TopicResponse} {next : Topic} {now : Time}
        → Asked k
        → Ticked now
        → Past s
        → stored s k ≡ some t
        → t.next ≡ some next
        → current ≡ kept_topic (some (record next { state = "published"; last_updated = some now }))
        → Origin start Past Asked Ticked k current

  module _ (start : S) (Past : S → Type 0) (Asked : String → Type 0) (Ticked : Time → Type 0) where
    abbrev pub HasOrigins : S → Type 0
    HasOrigins s =
        (k : String) (t : TopicResponse)
        → stored s k ≡ some t
        → Origin start Past Asked Ticked k t.current

    -- A job that is about to upsert carries the publication of a document that it has read.
    pub data HasReadFor (id : String) (u : TopicResponse) : Type 0 where
      has_read :
          {s : S} {t : TopicResponse} {next : Topic}
          → Past s
          → stored s id ≡ some t
          → t.next ≡ some next
          → u ≡ published_document t next
          → HasReadFor id u

    -- What is known of a job: it publishes what was asked for, and has read what it upserts.
    abbrev pub IsDue : Job → Type 0
    IsDue (checking id u) = u.state ≡ "published" → Asked id
    IsDue (updating id u) = u.state ≡ "published" → Asked id
    IsDue (reading id) = Asked id
    IsDue (writing id u) = Asked id × HasReadFor id u
    IsDue _ = Unit

    pub unless_replied-IsDue : (e : GoError) (job : Job) → IsDue job → IsDue (unless_replied e job)
    unless_replied-IsDue none job due = due
    unless_replied-IsDue (some e) job due = tt

    or_reply-IsDue :
        {A : Type 0} (r : Result A) (k : A → Job)
        → ((a : A) → r ≡ ok a → IsDue (k a))
        → IsDue (or_reply r k)
    or_reply-IsDue (ok a) k due = due a refl
    or_reply-IsDue (err e) k due = tt

    -- The job that goes on to publish where a state is that of publication.
    pub publishing-IsDue :
        (state id : String) (otherwise : Job)
        → (state ≡ "published" → Asked id)
        → IsDue otherwise
        → IsDue (if state == "published" then reading id else otherwise)
    publishing-IsDue state id otherwise asked due = elim (String-cases state "published") [
      | inl e ↦ rw ((eq_iff state "published").1 e) (asked e)
      | inr h ↦ rw h due
    ]

    pub first_job-IsDue :
        (env : Env) (put : Put) (req : Request)
        → ((k : String) → AsksToPublish env k (arrives put req) → Asked k)
        → IsDue (first_job env put req)
    unfolding first_job string
    first_job-IsDue env put_topic_state req asked = unless_replied-IsDue _ _ (
        publishing-IsDue (var "state" req) (var "id" req) _
          (λ e. asked (var "id" req) (AsksToPublish.by_state refl e)) tt)
    first_job-IsDue env put_topic_release_date req asked =
        or_reply-IsDue (read_release_date env.decode_release req.body) _ (λ release _.
          or_reply-IsDue (validate_release env.parse_time release) (dating (var "id" req))
            (λ date _. tt))
    first_job-IsDue env put_topic req asked =
        or_reply-IsDue (read_topic_update env.decode_update req.body) _ (λ u h.
          unless_replied-IsDue _ (checking (var "id" req) u)
            (λ e. asked (var "id" req) (AsksToPublish.by_update refl h e)))
