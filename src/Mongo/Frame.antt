-- ===== src/Mongo/Frame.antt =====
-- Requests to change topics that are served at once, and the topics that none of them is for:
-- api/topic_private.go over mongo/topic_store.go.
use dp_topic_api.Prelude.{
  ℕ, zero, suc, String, ◌≡◌, ◌≢◌, inl, inr, refl, sym, ap, ◌∙◌, some-injective, Bool, true, false,
  ◌==◌, if◌then◌else◌, Option, Option-cases, none, some, List, [], ◌∷◌, All, All-append,
}
use dp_topic_api.Errors.{GoError, Result, ok, err}
use dp_topic_api.Http.{Request, var}
use dp_topic_api.Models.State.{string, parse_state}
use dp_topic_api.Models.Topic.{
  Time, TopicResponse, TopicUpdate, read_release_date, read_topic_update, validate_update,
  validate_release,
}
use dp_topic_api.Api.Env.{Env}
use dp_topic_api.Api.Concurrent.{
  Job, setting, dating, checking, updating, reading, writing, replied, crashed, Put,
  put_topic_state, put_topic_release_date, put_topic, first_job, call_store, call_store_at, World,
  or_reply, unless_replied, read_for, Turn, arrives, calls, happen, proceed,
}
use dp_topic_api.Mongo.{
  Driver, Query, mongo_storer, matched, stamped, upsert_topic, update_topic, update_state,
  update_release_date,
}

module _ {S : Type 0} (stored : S → String → Option TopicResponse) where
  -- A write of the driver is to the documents with the id that it is given.
  pub record FrameLaws (driver : Driver S) : Type 0 where
    pub updates_one :
        (s : S) (id : String) (query : Query) (k : String)
        → k ≢ id
        → stored (driver.update_topics id query s).1 k ≡ stored s k
    pub upserts_one :
        (s : S) (id : String) (u : TopicResponse) (k : String)
        → k ≢ id
        → stored (driver.upsert_topics id u s).1 k ≡ stored s k

-- The job is for another topic than `k`, or past its calls of the store.
abbrev pub IsElsewhere : String → Job → Type 0
IsElsewhere k (setting id state) = k ≢ id
IsElsewhere k (dating id date) = k ≢ id
IsElsewhere k (checking id u) = k ≢ id
IsElsewhere k (updating id u) = k ≢ id
IsElsewhere k (reading id) = k ≢ id
IsElsewhere k (writing id u) = k ≢ id
IsElsewhere k (replied e) = Unit
IsElsewhere k crashed = Unit

-- A request that arrives is for another topic than `k`.
abbrev pub IsForAnother : String → Turn → Type 0
IsForAnother k (arrives put req) = k ≢ var "id" req
IsForAnother k (calls n now) = Unit

module _ (k : String) where
  unless_replied-IsElsewhere :
      (e : GoError) (job : Job) → IsElsewhere k job → IsElsewhere k (unless_replied e job)
  unless_replied-IsElsewhere none job h = h
  unless_replied-IsElsewhere (some e) job h = tt

  or_reply-IsElsewhere :
      {A : Type 0} (r : Result A) (next : A → Job)
      → ((a : A) → IsElsewhere k (next a))
      → IsElsewhere k (or_reply r next)
  or_reply-IsElsewhere (ok a) next h = h a
  or_reply-IsElsewhere (err e) next h = tt

  if-IsElsewhere :
      (b : Bool) (i j : Job)
      → IsElsewhere k i
      → IsElsewhere k j
      → IsElsewhere k (if b then i else j)
  if-IsElsewhere true i j p q = p
  if-IsElsewhere false i j p q = q

  read_for-IsElsewhere :
      (id : String) (r : Result TopicResponse) → k ≢ id → IsElsewhere k (read_for id r)
  read_for-IsElsewhere id (err e) h = tt
  read_for-IsElsewhere id (ok t) h = elim (Option-cases t.next) [
    | inl e ↦ rw e tt
    | inr (next, e) ↦ rw e h
  ]

  pub first_job-IsElsewhere :
      (env : Env) (put : Put) (req : Request)
      → k ≢ var "id" req
      → IsElsewhere k (first_job env put req)
  unfolding first_job string
  first_job-IsElsewhere env put_topic_state req h =
      unless_replied-IsElsewhere (parse_state (var "state" req)).1
        (if var "state" req == "published"
          then reading (var "id" req)
          else setting (var "id" req) (var "state" req))
        (if-IsElsewhere (var "state" req == "published") (reading (var "id" req))
          (setting (var "id" req) (var "state" req)) h h)
  first_job-IsElsewhere env put_topic_release_date req h =
      or_reply-IsElsewhere (read_release_date env.decode_release req.body) _ (λ release.
        or_reply-IsElsewhere (validate_release env.parse_time release) (dating (var "id" req))
          (λ date. h))
  first_job-IsElsewhere env put_topic req h =
      or_reply-IsElsewhere (read_topic_update env.decode_update req.body) _ (λ u.
        unless_replied-IsElsewhere (validate_update env.parse_time u) (checking (var "id" req) u) h)

module _ {S : Type 0} (stored : S → String → Option TopicResponse) (k : String) (driver : Driver S)
    (laws : FrameLaws stored driver) (env : Env) (now : Time) where
  upsert-elsewhere :
      (id : String) (u : TopicResponse) (s s' : S) (e : GoError)
      → k ≢ id
      → upsert_topic driver now id u s ≡ some (e, s')
      → stored s' k ≡ stored s k
  unfolding upsert_topic
  upsert-elsewhere id u s s' e h p = elim (Option-cases (stamped now u u.current u.next)) [
    | inl q ↦ cc (rw q at p)
    | inr (d, q) ↦
        let r : some (matched (driver.upsert_topics id d s)) ≡ some (e, s') = rw q at p in
        let there : (driver.upsert_topics id d s).1 ≡ s' =
          ap (λ (z : GoError × S). z.1) (some-injective _ _ r) in
        ap (λ z. stored z k) (sym there) ∙ laws.upserts_one s id d k h
  ]

  update-elsewhere :
      (id : String) (u : TopicUpdate) (s : S)
      → k ≢ id
      → stored (update_topic driver now env.topic_api_url id u s).1 k ≡ stored s k
  unfolding update_topic
  update-elsewhere id u s h = laws.updates_one s id _ k h

  -- A call for another topic leaves the documents of topic `k` alone.
  pub call_store-IsElsewhere :
      (job : Job) (s : S)
      → IsElsewhere k job
      → IsElsewhere k (call_store env (mongo_storer driver now) job s).0
        × (stored (call_store env (mongo_storer driver now) job s).1 k ≡ stored s k)
  unfolding call_store string update_state update_release_date
  call_store-IsElsewhere (setting id state) s h = (tt, laws.updates_one s id _ k h)
  call_store-IsElsewhere (dating id date) s h = (tt, laws.updates_one s id _ k h)
  call_store-IsElsewhere (checking id u) s h =
      (unless_replied-IsElsewhere k _ (updating id u) h, refl)
  call_store-IsElsewhere (updating id u) s h = (
    unless_replied-IsElsewhere k (update_topic driver now env.topic_api_url id u s).0
        (if u.state == "published" then reading id else replied none)
        (if-IsElsewhere k (u.state == "published") (reading id) (replied none) h tt),
    update-elsewhere id u s h,
  )
  call_store-IsElsewhere (reading id) s h = (read_for-IsElsewhere k id _ h, refl)
  call_store-IsElsewhere (writing id u) s h = elim (Option-cases (upsert_topic driver now id u s)) [
    | inl p ↦ rw p (tt, refl)
    | inr ((e, s'), p) ↦ rw p (tt, upsert-elsewhere id u s s' e h p)
  ]
  call_store-IsElsewhere (replied e) s h = (tt, refl)
  call_store-IsElsewhere crashed s h = (tt, refl)

  pub call_store_at-IsElsewhere :
      (jobs : List Job) (n : ℕ) (s : S)
      → All (IsElsewhere k) jobs
      → All (IsElsewhere k) (call_store_at env (mongo_storer driver now) jobs n s).0
        × (stored (call_store_at env (mongo_storer driver now) jobs n s).1 k ≡ stored s k)
  unfolding call_store_at
  call_store_at-IsElsewhere [] n s h = (tt, refl)
  call_store_at-IsElsewhere (job ∷ jobs) zero s (p, h) =
      let (p', same) = call_store-IsElsewhere job s p in ((p', h), same)
  call_store_at-IsElsewhere (job ∷ jobs) (suc n) s (p, h) =
      let (h', same) = call_store_at-IsElsewhere jobs n s h in ((p, h'), same)

module _ {S : Type 0} (stored : S → String → Option TopicResponse) (k : String) (driver : Driver S)
    (laws : FrameLaws stored driver) (env : Env) where
  -- Where no request that is being served or arrives is for topic `k`, and the driver keeps to its
  -- laws, the documents of that topic stay as they are, in whatever order the requests make their
  -- calls of the store.
  pub proceed-other_topics :
      (events : List Turn) (w : World S)
      → All (IsElsewhere k) w.jobs
      → All (IsForAnother k) events
      → stored (proceed env (λ now. mongo_storer driver now) events w).store k ≡ stored w.store k
  unfolding proceed happen
  proceed-other_topics [] w jobs h = refl
  proceed-other_topics (arrives put req ∷ events) w jobs (p, h) =
      proceed-other_topics events _
        (All-append (IsElsewhere k) w.jobs _ jobs (first_job-IsElsewhere k env put req p, tt)) h
  proceed-other_topics (calls n now ∷ events) w jobs (p, h) =
      let (jobs', same) =
        call_store_at-IsElsewhere stored k driver laws env now w.jobs n w.store jobs in
      proceed-other_topics events _ jobs' h ∙ same
