-- ===== src/Mongo/Website.antt =====
-- `getTopicPublicHandler` of api/topic_public.go at any moment of a run of requests that change topics.
use dp_topic_api.Prelude.{ℕ, String, ◌≡◌, subst, Option, some, List, Memᴰ}
use dp_topic_api.Errors.{Error, Result}
use dp_topic_api.Http.{Request, var}
use dp_topic_api.Models.Topic.{Time, Topic, TopicResponse}
use dp_topic_api.Api.Action.{Conn, Run, done}
use dp_topic_api.Api.Outcome.{IsFresh}
use dp_topic_api.Api.Respond.{Value, current_topic}
use dp_topic_api.Api.Respond.Statuses.{failed, finished}
use dp_topic_api.Api.Env.{Env}
use dp_topic_api.Api.Public.{get_topic_public_handler}
use dp_topic_api.Api.Public.Single.{ShowsTopic, get_topic_public_handler-ShowsTopic}
use dp_topic_api.Api.Concurrent.{idle, Turn, calls, proceed, stores}
use dp_topic_api.Mongo.{Driver, mongo_storer}
use dp_topic_api.Mongo.Origins.{AsksToPublish, WriteLaws, Origin, get_topic-stored}
use dp_topic_api.Mongo.Origins.Runs.{proceed-Origin}

-- A response that shows an error, or a document of which `P` holds.
pub data ShowsOnly {S : Type 0} (P : Option Topic → Type 0) (marshal : Value → Result String)
    (c : Conn S) : Run S (Unit {0}) → Type 0 where
  refused : (e : Error) → ShowsOnly P marshal c (done tt (failed e c))
  shown :
      {current : Option Topic}
      → P current
      → ShowsOnly P marshal c (done tt (finished (marshal (current_topic current)) c))

module _ {S : Type 0} (stored : S → String → Option TopicResponse) (driver : Driver S)
    (laws : WriteLaws stored driver) (env : Env) (now : Time) (P : Option Topic → Type 0) where
  ShowsTopic-ShowsOnly :
      (id : String) (c : Conn S) (r : Run S (Unit {0}))
      → ((t : TopicResponse) → stored c.store id ≡ some t → P t.current)
      → ShowsTopic (mongo_storer driver now) env c id r
      → ShowsOnly P env.marshal c r
  ShowsTopic-ShowsOnly id c _ h (ShowsTopic.hidden e) = ShowsOnly.refused _
  ShowsTopic-ShowsOnly id c _ h (ShowsTopic.unknown other e) = ShowsOnly.refused _
  ShowsTopic-ShowsOnly id c _ h (ShowsTopic.shown {t = t} other at) =
      ShowsOnly.shown (h t (get_topic-stored stored driver laws now c.store id t at))

-- A request to the website for a topic, at any moment of a run that began when no request to change
-- topics was being served, where the driver keeps to its laws: it is answered with an error; or it
-- shows the current document that the topic had when the run began; or one of the requests asked to
-- publish that topic, and it shows the next document that the topic had in one of the databases that
-- the run went through, in the state published with the time of one of the calls, each time in
-- milliseconds.
pub proceed-ShowsOnly :
    {S : Type 0} (stored : S → String → Option TopicResponse) (driver : Driver S)
    → WriteLaws stored driver
    → (env website : Env) (events : List Turn) (s : S) (now : Time) (req : Request) (c : Conn S)
    → IsFresh c
    → c.store ≡ (proceed env (λ now. mongo_storer driver now) events (idle s)).store
    → ShowsOnly
        (Origin stored s
          (λ past. Memᴰ past (stores env (λ now. mongo_storer driver now) events (idle s)))
          (λ id. (event : Turn) × Memᴰ event events × AsksToPublish env id event)
          (λ at. (n : ℕ) × Memᴰ (calls n at) events)
          (var "id" req))
        website.marshal
        c
        (get_topic_public_handler (mongo_storer driver now) website req c)
proceed-ShowsOnly stored driver laws env website events s now req c fresh e =
    ShowsTopic-ShowsOnly stored driver laws website now _ (var "id" req) c _
      (λ t at.
        proceed-Origin stored driver laws env events s (var "id" req) t
          (subst (λ z. stored z (var "id" req) ≡ some t) e at))
      (get_topic_public_handler-ShowsTopic (mongo_storer driver now) website c req fresh)
