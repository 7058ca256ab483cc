-- ===== src/Tests/Concurrent.antt =====
-- Requests that are served at once.
use dp_topic_api.Prelude.{
  ℕ, false, ◌≤◌, true, ◌≡◌, refl, ap, none, some, List, [], ◌∷◌, Memᴰ, ◌==◌, arith,
}
use dp_topic_api.Http.{Request, fresh}
use dp_topic_api.Models.State.{string, parse_state}
use dp_topic_api.Models.Topic.{Topic, TopicResponse, read_topic_update, validate_update}
use dp_topic_api.Api.Concurrent.{
  Job, put_topic_state, put_topic, World, Turn, arrives, calls, first_job, proceed, stores, replied,
}
use dp_topic_api.Api.Concurrent.Alone.{call_times, ended, handler_of, first_job-handler_of}
use dp_topic_api.Api.Concurrent.Ends.{EndedAt, get_elem?, calls_of, arrives-EndedAt}
use dp_topic_api.Mongo.{mongo_storer, get_topic, check_topic_exists, upsert_topic, update_topic}
use dp_topic_api.Mongo.Origins.{AsksToPublish, Origin}
use dp_topic_api.Mongo.Origins.Runs.{proceed-Origin}
use dp_topic_api.Mongo.Frame.{IsForAnother, proceed-other_topics}
use dp_topic_api.Mongo.Isolation.{Concludes, proceed-Concludes}
use dp_topic_api.Api.Action.{Conn}
use dp_topic_api.Api.Public.{get_topic_public_handler}
use dp_topic_api.Mongo.Website.{ShowsOnly, proceed-ShowsOnly}
use dp_topic_api.Tests.Fixtures.{topic, stored, env, request, storer, conn}
use dp_topic_api.Tests.Database.{Topics, read, clock}
use dp_topic_api.Tests.Editable.{
  topics, driver, driver-WriteLaws, driver-DriverLaws, driver-FrameLaws,
}

abbrev publish_gdp : Request
publish_gdp = request (("id", "gdp") ∷ ("state", "published") ∷ []) [] ""

abbrev update_gdp : Request
update_gdp = request (("id", "gdp") ∷ []) [] "{}"

-- A publication reads the topic, an update of its title comes between, and the publication stores
-- what it has read.
abbrev overtaken : List Turn
overtaken =
    arrives put_topic_state publish_gdp
    ∷ arrives put_topic update_gdp
    ∷ calls 0 clock
    ∷ calls 1 clock
    ∷ calls 1 clock
    ∷ calls 0 clock
    ∷ calls 1 clock
    ∷ calls 1 clock
    ∷ []

abbrev before : World Topics
before = record { jobs = []; store = topics }

abbrev after : World Topics
after = proceed env (λ now. mongo_storer driver now) overtaken before

abbrev old_title : Topic
old_title = record (topic "gdp" "published" []) { last_updated = some (record { nanos = 0 }) }

abbrev republished : TopicResponse
republished = record { id = "gdp"; current = some old_title; next = some old_title }

-- Both requests are answered with 200, and the title of the update is lost.
overtaken_loses_title :
    (after.jobs ≡ replied none ∷ replied none ∷ []) × (after.store "gdp" ≡ some republished)
unfolding proceed first_job get_topic upsert_topic check_topic_exists update_topic parse_state
    string read_topic_update validate_update
overtaken_loses_title = (refl, refl)

proceed-Origin_example :
    Origin read topics
      (λ past. Memᴰ past (stores env (λ now. mongo_storer driver now) overtaken before))
      (λ id. (event : Turn) × Memᴰ event overtaken × AsksToPublish env id event)
      (λ now. (n : ℕ) × Memᴰ (calls n now) overtaken)
      "gdp"
      (some old_title)
proceed-Origin_example =
    proceed-Origin read driver driver-WriteLaws env overtaken topics "gdp" republished
      overtaken_loses_title.1

abbrev four_turns : List Turn
four_turns = calls 0 clock ∷ calls 0 clock ∷ calls 0 clock ∷ calls 0 clock ∷ []

four_turns_enough : 4 ≤ calls_of 0 four_turns
unfolding calls_of
four_turns_enough = omega arith

abbrev served : World Topics
served =
    proceed env (λ now. mongo_storer driver now) (arrives put_topic_state publish_gdp ∷ four_turns)
      before

arrives-EndedAt_example : EndedAt 0 served.jobs
arrives-EndedAt_example =
    arrives-EndedAt env (λ now. mongo_storer driver now) put_topic_state publish_gdp four_turns
      before four_turns_enough

first_job-handler_of_example :
    ended conn (call_times env storer 4 (first_job env put_topic update_gdp) conn.store)
    ≡ some (handler_of storer env put_topic update_gdp conn)
first_job-handler_of_example = first_job-handler_of env storer put_topic update_gdp conn refl

abbrev update_cpi : Request
update_cpi = request (("id", "cpi") ∷ []) [] "{}"

cpi_is_another : IsForAnother "gdp" (arrives put_topic update_cpi)
cpi_is_another h = let e : true ≡ false = ap (λ s. s == "gdp") h in cc e

-- The requests for two topics in turn.
abbrev between : List Turn
between =
    arrives put_topic update_cpi
    ∷ calls 0 clock
    ∷ calls 1 clock
    ∷ calls 1 clock
    ∷ calls 0 clock
    ∷ []

abbrev apart : World Topics
apart =
    proceed env (λ now. mongo_storer driver now) (arrives put_topic_state publish_gdp ∷ between)
      before

between_enough : 2 ≤ calls_of 0 between
unfolding calls_of
between_enough = omega arith

proceed-Concludes_example :
    (job : Job) × (get_elem? apart.jobs 0 ≡ some job)
    × Concludes read "gdp" (stored "gdp" []) (topic "gdp" "completed" []) apart.store job
proceed-Concludes_example =
    proceed-Concludes read "gdp" (stored "gdp" []) (topic "gdp" "completed" []) driver
      driver-DriverLaws driver-FrameLaws refl env publish_gdp between topics refl refl refl
      (cpi_is_another, (tt, (tt, (tt, (tt, tt))))) between_enough

proceed-other_topics_example :
    (proceed env (λ now. mongo_storer driver now) between before).store "gdp"
    ≡ some (stored "gdp" [])
proceed-other_topics_example =
    proceed-other_topics read "gdp" driver driver-FrameLaws env between before tt
      (cpi_is_another, (tt, (tt, (tt, (tt, tt)))))

abbrev show_gdp : Request
show_gdp = request (("id", "gdp") ∷ []) [] ""

abbrev website : Conn Topics
website = record { store = after.store; writer = fresh false }

proceed-ShowsOnly_example :
    ShowsOnly
      (Origin read topics
        (λ past. Memᴰ past (stores env (λ now. mongo_storer driver now) overtaken before))
        (λ id. (event : Turn) × Memᴰ event overtaken × AsksToPublish env id event)
        (λ now. (n : ℕ) × Memᴰ (calls n now) overtaken)
        "gdp")
      env.marshal
      website
      (get_topic_public_handler (mongo_storer driver clock) env show_gdp website)
proceed-ShowsOnly_example =
    proceed-ShowsOnly read driver driver-WriteLaws env env overtaken topics clock show_gdp website
      refl refl
