-- ===== src/Mongo/Publishing.antt =====
-- What publishing a topic leaves in the database: the handler of api/topic_private.go over the store of
-- mongo/topic_store.go.
use mathlib.Core.Path.{subst}
use dp_topic_api.Prelude.{
  ℕ, ◌*◌, String, ◌≡◌, ◌≢◌, refl, sym, ap, ◌∙◌, ◌⊎◌, inl, inr, Option, none, some,
}
use Prim.Native.Nat.{◌/◌}
use dp_topic_api.Errors.{Error, GoError, Result, ok, err}
use dp_topic_api.Http.{Request, var}
use dp_topic_api.Models.State.Lifecycle.{published}
use dp_topic_api.Models.Topic.{Time, Topic, TopicResponse}
use dp_topic_api.Api.Action.{Conn, Run, done}
use dp_topic_api.Api.Outcome.{IsFresh}
use dp_topic_api.Api.Env.{Env}
use dp_topic_api.Api.Respond.Statuses.{failed, accepted}
use dp_topic_api.Api.Private.{put_topic_state_private_handler}
use dp_topic_api.Api.Private.Publish.{Publishes, reply, published_document}
use dp_topic_api.Api.Private.PutState.{PutsState, put_topic_state-PutsState}
use dp_topic_api.Mongo.{found, failure, Driver, mongo_storer, matched, get_topic, upsert_topic}

some_injective : {A : Type 0} {a b : A} → some a ≡ some b → a ≡ b
some_injective h = cc h

-- BSON counts the time in milliseconds.
abbrev pub in_milliseconds : Option Time → Option Time
in_milliseconds none = none
in_milliseconds (some time) = some (record { nanos = time.nanos / 1000000 * 1000000 })

abbrev pub kept_topic : Option Topic → Option Topic
kept_topic none = none
kept_topic (some t) = some (record t {
  last_updated = in_milliseconds t.last_updated;
  release_date = in_milliseconds t.release_date;
})

-- A document as the database keeps it.
abbrev pub kept : TopicResponse → TopicResponse
kept t = record { id = t.id; current = kept_topic t.current; next = kept_topic t.next }

-- The document that publishing at the time `now` gives the database.
abbrev pub publication : Time → TopicResponse → Topic → TopicResponse
publication now t next = record {
  id = t.id;
  current = some (record next { state = "published"; last_updated = some now });
  next = some (record next { state = "published"; last_updated = some now });
}

module _ {S : Type 0} (stored : S → String → Option TopicResponse) where
  -- The document with the id is the given one as it is kept, and the others are as they were.
  pub record Replaced (s : S) (id : String) (u : TopicResponse) (s' : S) : Type 0 where
    pub now_kept : stored s' id ≡ some (kept u)
    pub others : (k : String) → k ≢ id → stored s' k ≡ stored s k

  -- An upsert of a known topic replaces that topic. One that reports an error, such as a lost
  -- connection, may have replaced it all the same.
  pub data Upserted (s : S) (id : String) (u : TopicResponse) : Result ℕ × S → Type 0 where
    not_written :
        (e : Error) (s' : S)
        → ((k : String) → stored s' k ≡ stored s k)
        → Upserted s id u (err e, s')
    written_in_error : (e : Error) (s' : S) → Replaced s id u s' → Upserted s id u (err e, s')
    written : (s' : S) → Replaced s id u s' → Upserted s id u (ok 1, s')

  -- What is used of the driver, where `stored` reads the topics that the database holds: one that
  -- the database holds is found, unless the call fails, and an upsert of it replaces that one alone.
  pub record DriverLaws (driver : Driver S) : Type 0 where
    pub finds :
        (s : S) (id : String) (t : TopicResponse)
        → stored s id ≡ some t
        → (driver.find_topic id s ≡ found t) ⊎ ((e : Error) × (driver.find_topic id s ≡ failure e))
    pub upserts :
        (s : S) (id : String) (t : TopicResponse) (current next : Topic)
        → stored s id ≡ some t
        → let u : TopicResponse = record { id = t.id; current = some current; next = some next } in
          Upserted s id u (driver.upsert_topics id u s)

  -- What publishing a topic may do: reply with an error, with nothing changed in the database or with
  -- the publication stored; or reply 200, with the publication stored.
  pub data Stores (now : Time) (id : String) (t : TopicResponse) (next : Topic) (c : Conn S)
      : Run S (Unit {0}) → Type 0 where
    not_stored :
        (e : Error) (s' : S)
        → ((k : String) → stored s' k ≡ stored c.store k)
        → Stores now id t next c (done tt (failed e (record c { store = s' })))
    stored_in_error :
        (e : Error) (s' : S)
        → Replaced c.store id (publication now t next) s'
        → Stores now id t next c (done tt (failed e (record c { store = s' })))
    now_stored :
        (s' : S)
        → Replaced c.store id (publication now t next) s'
        → Stores now id t next c (done tt (accepted (record c { store = s' })))

  module _ (driver : Driver S) (now : Time) (laws : DriverLaws driver) where
    upsert_returns :
        (id : String) (t : TopicResponse) (next : Topic) (c : Conn S)
        → upsert_topic driver now id (published_document t next) c.store ≢ none
    unfolding upsert_topic
    upsert_returns id t next c h = cc

    Upserted-Stores :
        (id : String) (t : TopicResponse) (next : Topic) (c : Conn S) (r : Result ℕ × S)
        (e : GoError) (s : S)
        → driver.upsert_topics id (publication now t next) c.store ≡ r
        → Upserted c.store id (publication now t next) r
        → upsert_topic driver now id (published_document t next) c.store ≡ some (e, s)
        → Stores now id t next c (done tt (reply e (record c { store = s })))
    unfolding upsert_topic
    Upserted-Stores id t next c _ e s h (not_written e' s' same) u =
        subst
          (λ (p : GoError × S).
            Stores now id t next c (done tt (reply p.0 (record c { store = p.1 }))))
          (some_injective (ap (λ r. some (matched r)) (sym h) ∙ u)) (not_stored e' s' same)
    Upserted-Stores id t next c _ e s h (written_in_error e' s' w) u =
        subst
          (λ (p : GoError × S).
            Stores now id t next c (done tt (reply p.0 (record c { store = p.1 }))))
          (some_injective (ap (λ r. some (matched r)) (sym h) ∙ u)) (stored_in_error e' s' w)
    Upserted-Stores id t next c _ e s h (written s' w) u =
        subst
          (λ (p : GoError × S).
            Stores now id t next c (done tt (reply p.0 (record c { store = p.1 }))))
          (some_injective (ap (λ r. some (matched r)) (sym h) ∙ u)) (now_stored s' w)

    -- A topic that the database holds is read, or the call fails.
    pub get_topic_stored :
        (id : String) (t : TopicResponse) (s : S)
        → stored s id ≡ some t
        → (get_topic driver now id s ≡ ok t) ⊎ ((e : Error) × (get_topic driver now id s ≡ err e))
    unfolding get_topic
    get_topic_stored id t s at = elim (laws.finds s id t at) [
      | inl h ↦ inl (rw h refl)
      | inr (e, h) ↦ inr (e, rw h refl)
    ]

    pub only_stored :
        (id : String) (t u : TopicResponse) (s : S)
        → stored s id ≡ some t
        → get_topic driver now id s ≡ ok u
        → t ≡ u
    only_stored id t u s at h = elim (get_topic_stored id t s at) [
      | inl f ↦ cc (f, h)
      | inr (e, f) ↦ cc (f, h)
    ]

    Publishes-Stores :
        (id : String) (t : TopicResponse) (next : Topic) (c : Conn S) (r : Run S (Unit {0}))
        → stored c.store id ≡ some t
        → t.next ≡ some next
        → Publishes (mongo_storer driver now) id c r
        → Stores now id t next c r
    Publishes-Stores id t next c _ at k (Publishes.missing {e = e} h) =
        not_stored e c.store (λ k'. refl)
    Publishes-Stores id t next c _ at k (Publishes.no_next {t = u} h l) =
        let f : t ≡ u = only_stored id t u c.store at h in cc (f, k, l)
    Publishes-Stores id t next c _ at k
          (Publishes.stored {t = u} {next = v} {e = e} {s = s} h l w) =
        let f : t ≡ u = only_stored id t u c.store at h in
        let same : ◌≡◌ {A = TopicResponse × Topic} (t, next) (u, v) = cc (f, k, l) in
        Upserted-Stores id t next c _ e s refl (laws.upserts c.store id t _ _ at)
          (ap (λ z. upsert_topic driver now id (published_document z.0 z.1) c.store) same ∙ w)
    Publishes-Stores id t next c _ at k (Publishes.store_panics {t = u} {next = v} h l w) =
        let f : t ≡ u = only_stored id t u c.store at h in
        let same : ◌≡◌ {A = TopicResponse × Topic} (t, next) (u, v) = cc (f, k, l) in
        elim (upsert_returns id t next c
          (ap (λ z. upsert_topic driver now id (published_document z.0 z.1) c.store) same ∙ w)) [ ]

    PutsState-Stores :
        (id state : String) (t : TopicResponse) (next : Topic) (c : Conn S) (r : Run S (Unit {0}))
        → state ≡ "published"
        → stored c.store id ≡ some t
        → t.next ≡ some next
        → PutsState (mongo_storer driver now) id state c r
        → Stores now id t next c r
    PutsState-Stores id state t next c _ e at k (PutsState.invalid unnamed) =
        absurd (unnamed (published, e))
    PutsState-Stores id state t next c _ e at k (PutsState.updated named other u) = absurd (other e)
    PutsState-Stores id state t next c r e at k (PutsState.published e' p) =
        Publishes-Stores id t next c r at k p

    -- Publishing a topic that the database holds with a next document, on a connection where
    -- nothing was sent yet and where the driver keeps to its laws: the reply is that of an error, and
    -- either no topic of the database is changed or the publication is stored; or the reply is 200
    -- and the publication is stored. Stored it means that both versions of the topic are its next
    -- document in the state published with the time of the call, each time in milliseconds, and that
    -- no other topic has changed.
    pub put_topic_state-Stores :
        (env : Env) (req : Request) (c : Conn S) (t : TopicResponse) (next : Topic)
        → IsFresh c
        → var "state" req ≡ "published"
        → stored c.store (var "id" req) ≡ some t
        → t.next ≡ some next
        → Stores now
            (var "id" req)
            t
            next
            c
            (put_topic_state_private_handler (mongo_storer driver now) env req c)
    put_topic_state-Stores env req c t next fresh e at k =
        PutsState-Stores (var "id" req) (var "state" req) t next c _ e at k
          (put_topic_state-PutsState (mongo_storer driver now) env req c fresh)
