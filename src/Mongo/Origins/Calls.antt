-- ===== src/Mongo/Origins/Calls.antt =====
-- One call of the store by a handler of api/topic_private.go, and where documents come from.
use dp_topic_api.Prelude.{
  String, ◌≡◌, inl, inr, refl, sym, ap, subst, some-injective, ◌∙◌, true, Option, Option-cases,
  none, some,
}
use dp_topic_api.Errors.{GoError, Result-cases}
use dp_topic_api.Models.State.{string}
use dp_topic_api.Models.Topic.{Time, TopicResponse}
use dp_topic_api.Api.Env.{Env}
use dp_topic_api.Api.Concurrent.{
  Job, setting, dating, checking, updating, reading, writing, replied, crashed, call_store,
}
use dp_topic_api.Mongo.{
  text, time, Driver, Query, mongo_storer, matched, get_topic, upsert_topic, update_topic,
  update_state, update_release_date,
}
use dp_topic_api.Mongo.Publishing.{publication}
use dp_topic_api.Mongo.Updates.{
  all_under, paths, one_field-all_under, create_topic_update_query-conflict_free,
}
use dp_topic_api.Mongo.Origins.{
  get_topic-stored, WriteLaws, Origin, HasOrigins, HasReadFor, has_read, IsDue,
  unless_replied-IsDue, publishing-IsDue,
}

module _ {S : Type 0} (stored : S → String → Option TopicResponse) (start : S) (Past : S → Type 0)
    (Asked : String → Type 0) (Ticked : Time → Type 0) where
  module _ (driver : Driver S) (now : Time) (laws : WriteLaws stored driver) (s : S)
      (origins : HasOrigins stored start Past Asked Ticked s) (ticked : Ticked now) where
    after_update :
        (id : String) (query : Query)
        → all_under "next." (paths query) ≡ true
        → HasOrigins stored start Past Asked Ticked (driver.update_topics id query s).1
    after_update id query under k t' at =
        let (t, at', same) = laws.updates s id query under k t' at in
        subst (λ current. Origin stored start Past Asked Ticked k current) (sym same)
          (origins k t at')

    after_upsert :
        (id : String) (u : TopicResponse) (e : GoError) (s' : S)
        → Asked id
        → HasReadFor stored start Past Asked Ticked id u
        → upsert_topic driver now id u s ≡ some (e, s')
        → HasOrigins stored start Past Asked Ticked s'
    unfolding upsert_topic
    after_upsert id u e s' asked (has_read {t = t} {next = next} past held has_next same) h k t'
          at =
        let document : TopicResponse = publication now t next in
        let returned : some (matched (driver.upsert_topics id document s)) ≡ some (e, s') =
          sym (ap (λ v. upsert_topic driver now id v s) same) ∙ h in
        let there : (driver.upsert_topics id document s).1 ≡ s' =
          ap (λ (r : GoError × S). r.1) (some-injective _ _ returned) in
        elim (laws.upserts s id document k t' (ap (λ z. stored z k) there ∙ at)) [
          | inl old ↦ origins k t' old
          | inr (here, given) ↦
              Origin.from_next (subst Asked (sym here) asked) ticked past
                (ap (stored _) here ∙ held) has_next (ap (λ (v : TopicResponse). v.current) given)
        ]

    reading-IsDue :
        (env : Env) (id : String)
        → Past s
        → Asked id
        → IsDue stored start Past Asked Ticked
            (call_store env (mongo_storer driver now) (reading id) s).0
    unfolding call_store string
    reading-IsDue env id past asked = elim (Result-cases (get_topic driver now id s)) [
      | inr (e, h) ↦ rw h tt
      | inl (t, h) ↦ elim (Option-cases t.next) [
        | inl k ↦ rw (h, k) tt
        | inr (next, k) ↦
            rw (h, k)
              (asked, has_read past (get_topic-stored stored driver laws now s id t h) k refl)
      ]
    ]

    -- One call keeps what is known of the documents and of the job.
    pub call_store-HasOrigins :
        (env : Env) (job : Job)
        → Past s
        → IsDue stored start Past Asked Ticked job
        → IsDue stored start Past Asked Ticked (call_store env (mongo_storer driver now) job s).0
          × HasOrigins stored start Past Asked Ticked
              (call_store env (mongo_storer driver now) job s).1
    unfolding call_store string update_state update_release_date update_topic
    call_store-HasOrigins env (setting id state) past due =
        (tt, after_update id _ (one_field-all_under now (text state)).0)
    call_store-HasOrigins env (dating id date) past due =
        (tt, after_update id _ (one_field-all_under now (time date)).1)
    call_store-HasOrigins env (checking id u) past due =
        (unless_replied-IsDue stored start Past Asked Ticked _ (updating id u) due, origins)
    call_store-HasOrigins env (updating id u) past due = (
      unless_replied-IsDue stored start Past Asked Ticked _ _
          (publishing-IsDue stored start Past Asked Ticked u.state id (replied none) due tt),
      after_update id _ (create_topic_update_query-conflict_free now env.topic_api_url id u).1,
    )
    call_store-HasOrigins env (reading id) past due = (reading-IsDue env id past due, origins)
    call_store-HasOrigins env (writing id u) past (asked, read) =
        elim (Option-cases (upsert_topic driver now id u s)) [
          | inl h ↦ rw h (tt, origins)
          | inr ((e, s'), h) ↦ rw h (tt, after_upsert id u e s' asked read h)
        ]
    call_store-HasOrigins env (replied e) past due = (tt, origins)
    call_store-HasOrigins env crashed past due = (tt, origins)
