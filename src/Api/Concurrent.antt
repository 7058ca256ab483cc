-- ===== src/Api/Concurrent.antt =====
-- api/topic_private.go: requests to change topics that are served at once. net/http serves each
-- request in a goroutine of its own, so the calls of the store that one handler makes may have those
-- of other handlers between them. A job is a handler past its checks of the request, at the call of
-- the store that it makes next.
pub mod Alone
pub mod Ends
use dp_topic_api.Prelude.{
  ℕ, zero, suc, String, Option, none, some, List, [], ◌∷◌, ◌++◌, ◌==◌, if◌then◌else◌,
}
use dp_topic_api.Errors.{GoError, Result, ok, err}
use dp_topic_api.Http.{Request, var}
use dp_topic_api.Models.State.{state_published, string, parse_state}
use dp_topic_api.Models.Topic.{
  Time, TopicResponse, TopicUpdate, read_release_date, read_topic_update, validate_update,
  validate_release,
}
use dp_topic_api.Store.{Storer}
use dp_topic_api.Api.Env.{Env}
use dp_topic_api.Api.Private.{sync_next_and_current_topic}

pub data Job : Type 0 where
  -- `UpdateState`, `UpdateReleaseDate`, `CheckTopicExists` and `UpdateTopic` of a handler
  setting : String → String → Job
  dating : String → Time → Job
  checking : String → TopicUpdate → Job
  updating : String → TopicUpdate → Job
  -- `GetTopic` and `UpsertTopic` of `publishTopic`
  reading : String → Job
  writing : String → TopicResponse → Job
  -- Past the calls of the store, with the error that is reported, or in a panic.
  replied : GoError → Job
  crashed : Job

-- The three handlers that change a topic.
pub data Put : Type 0 where
  put_topic_state put_topic_release_date put_topic : Put

abbrev pub or_reply : {A : Type 0} → Result A → (A → Job) → Job
or_reply (err e) k = replied (some e)
or_reply (ok a) k = k a

abbrev pub unless_replied : GoError → Job → Job
unless_replied (some e) job = replied (some e)
unless_replied none job = job

-- A handler up to its first call of the store.
unfoldable pub first_job : Env → Put → Request → Job
first_job env put_topic_state req = unless_replied (parse_state (var "state" req)).1 (
    if var "state" req == string state_published
    then reading (var "id" req)
    else setting (var "id" req) (var "state" req))
first_job env put_topic_release_date req =
    or_reply (read_release_date env.decode_release req.body)
      λ release. or_reply (validate_release env.parse_time release) (dating (var "id" req))
first_job env put_topic req =
    or_reply (read_topic_update env.decode_update req.body) λ topic_update.
      unless_replied (validate_update env.parse_time topic_update)
        (checking (var "id" req) topic_update)

abbrev pub read_for : String → Result TopicResponse → Job
read_for id (err e) = replied (some e)
read_for id (ok topic) = elim topic.next [
  | none ↦ crashed
  | some next ↦ writing id (
      sync_next_and_current_topic
        (record topic { next = some (record next { state = string state_published }) }))
]

abbrev upserted : {S : Type 0} → Option (GoError × S) → S → Job × S
upserted none s = (crashed, s)
upserted (some (e, s')) s = (replied e, s')

module _ {S : Type 0} (env : Env) (storer : Storer S) where
  -- One call of the store, up to the handler's next one.
  unfoldable pub call_store : Job → S → Job × S
  unfolding sync_next_and_current_topic
  call_store (setting id state) s = let (e, s') = storer.update_state id state s in (replied e, s')
  call_store (dating id date) s =
      let (e, s') = storer.update_release_date id date s in (replied e, s')
  call_store (checking id u) s =
      (unless_replied (storer.check_topic_exists id s) (updating id u), s)
  call_store (updating id u) s =
      let (e, s') = storer.update_topic env.topic_api_url id u s in
      (
        unless_replied e (if u.state == string state_published then reading id else replied none),
        s',
      )
  call_store (reading id) s = (read_for id (storer.get_topic id s), s)
  call_store (writing id t) s = upserted (storer.upsert_topic id t s) s
  call_store (replied e) s = (replied e, s)
  call_store crashed s = (crashed, s)

  -- A call by the job at one place of the list.
  unfoldable pub call_store_at : List Job → ℕ → S → List Job × S
  unfolding call_store
  call_store_at [] n s = ([], s)
  call_store_at (job ∷ jobs) zero s = let (job', s') = call_store job s in (job' ∷ jobs, s')
  call_store_at (job ∷ jobs) (suc n) s =
      let (jobs', s') = call_store_at jobs n s in (job ∷ jobs', s')

-- The requests being served, in the order of their arrival, and the database.
pub record World (S : Type 0) : Type 0 where
  pub jobs : List Job
  pub store : S

-- No request is being served.
abbrev pub idle : {S : Type 0} → S → World S
idle s = record { jobs = []; store = s }

-- A request arrives, or one of those being served makes a call at a time of the clock.
pub data Turn : Type 0 where
  arrives : Put → Request → Turn
  calls : ℕ → Time → Turn

module _ {S : Type 0} (env : Env) (storer_at : Time → Storer S) where
  unfoldable pub happen : Turn → World S → World S
  unfolding call_store_at first_job
  happen (arrives put req) w = record w { jobs = w.jobs ++ first_job env put req ∷ [] }
  happen (calls n now) w =
      let (jobs, store) = call_store_at env (storer_at now) w.jobs n w.store in
      record { jobs = jobs; store = store }

  unfoldable pub proceed : List Turn → World S → World S
  unfolding happen
  proceed [] w = w
  proceed (event ∷ events) w = proceed events (happen event w)

  -- The databases that a run goes through, the first and the last included.
  unfoldable pub stores : List Turn → World S → List S
  unfolding happen
  stores [] w = w.store ∷ []
  stores (event ∷ events) w = w.store ∷ stores events (happen event w)
