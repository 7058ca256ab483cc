-- ===== src/Api/Concurrent/Alone.antt =====
-- A job that no other call comes between, and the handler that it stands for.
use dp_topic_api.Prelude.{
  ℕ, zero, suc, String, ◌≡◌, refl, sym, ◌∙◌, Option, none, some, eq_iff, eq-false,
}
use dp_topic_api.Errors.{
  GoError, ok, err, empty_request_body, unable_to_read_message, invalid_release_date,
}
use dp_topic_api.Http.{Request, var}
use dp_topic_api.Models.State.{string}
use dp_topic_api.Models.State.Lifecycle.{published, named-parse_state, unnamed-parse_state}
use dp_topic_api.Models.Topic.{
  Time, TopicRelease, Decoded, eof, malformed, decoded, read_release_date, validate_release,
}
use dp_topic_api.Models.Topic.Rules.{Verdict-validate_update}
use dp_topic_api.Store.{Storer}
use dp_topic_api.Api.Action.{Conn, Run, Action, done, panicked}
use dp_topic_api.Api.Outcome.{IsFresh}
use dp_topic_api.Api.Env.{Env}
use dp_topic_api.Api.Private.{
  put_topic_state_private_handler, put_topic_release_date_private_handler,
  put_topic_private_handler,
}
use dp_topic_api.Api.Private.Publish.{reply, Publishes}
use dp_topic_api.Api.Private.PutState.{PutsState, put_topic_state-PutsState}
use dp_topic_api.Api.Private.PutTopic.{PutsTopic, put_topic-PutsTopic}
use dp_topic_api.Api.Private.PutReleaseDate.{
  PutsReleaseDate, put_topic_release_date-PutsReleaseDate,
}
use dp_topic_api.Api.Concurrent.{
  Job, setting, dating, checking, updating, reading, writing, replied, crashed, Put,
  put_topic_state, put_topic_release_date, put_topic, first_job, call_store,
}

-- The handler of `api.go` for each request.
abbrev pub handler_of : {S : Type 0} → Storer S → Env → Put → Request → Action S (Unit {0})
handler_of storer env put_topic_state req = put_topic_state_private_handler storer env req
handler_of storer env put_topic_release_date req =
    put_topic_release_date_private_handler storer env req
handler_of storer env put_topic req = put_topic_private_handler storer env req

-- What is sent when the job has ended.
abbrev pub ended : {S : Type 0} → Conn S → Job × S → Option (Run S (Unit {0}))
ended c (replied e, s) = some (done tt (reply e (record c { store = s })))
ended c (crashed, s) = some (panicked (record c { store = s }))
ended c (_, s) = none

ended-store :
    {S : Type 0} (c : Conn S) (s : S) (p : Job × S) → ended (record c { store = s }) p ≡ ended c p
ended-store c s (replied e, s') = refl
ended-store c s (crashed, s') = refl
ended-store c s (setting id state, s') = refl
ended-store c s (dating id date, s') = refl
ended-store c s (checking id u, s') = refl
ended-store c s (updating id u, s') = refl
ended-store c s (reading id, s') = refl
ended-store c s (writing id t, s') = refl

module _ (decode : String → Decoded TopicRelease) (body : String) where
  read_empty : decode body ≡ eof → read_release_date decode body ≡ err empty_request_body
  unfolding read_release_date
  read_empty h = rw (h, read_release_date)

  read_malformed :
      decode body ≡ malformed → read_release_date decode body ≡ err unable_to_read_message
  unfolding read_release_date
  read_malformed h = rw (h, read_release_date)

  read_decoded :
      (release : TopicRelease)
      → decode body ≡ decoded release
      → read_release_date decode body ≡ ok release
  unfolding read_release_date
  read_decoded release h = rw (h, read_release_date)

module _ (parse_time : String → Option Time) (release : TopicRelease) where
  undated :
      parse_time release.release_date ≡ none
      → validate_release parse_time release ≡ err invalid_release_date
  unfolding validate_release
  undated h = rw (h, validate_release)

  dated :
      (date : Time)
      → parse_time release.release_date ≡ some date
      → validate_release parse_time release ≡ ok date
  unfolding validate_release
  dated date h = rw (h, validate_release)

module _ {S : Type 0} (env : Env) (storer : Storer S) where
  -- A number of calls in a row.
  unfoldable pub call_times : ℕ → Job → S → Job × S
  unfolding call_store
  call_times zero job s = (job, s)
  call_times (suc n) job s = let (job', s') = call_store env storer job s in call_times n job' s'

  call_times-replied : (n : ℕ) (e : GoError) (s : S) → call_times n (replied e) s ≡ (replied e, s)
  unfolding call_times
  call_times-replied zero e s = refl
  call_times-replied (suc n) e s = call_times-replied n e s

  call_times-crashed : (n : ℕ) (s : S) → call_times n crashed s ≡ (crashed, s)
  unfolding call_times
  call_times-crashed zero s = refl
  call_times-crashed (suc n) s = call_times-crashed n s

  module _ (c : Conn S) where
    Publishes-ended :
        (n : ℕ) (id : String) (r : Run S (Unit {0}))
        → Publishes storer id c r
        → ended c (call_times (suc (suc n)) (reading id) c.store) ≡ some r
    unfolding call_times string
    Publishes-ended n id _ (Publishes.missing {e = e} h) =
        rw (h, call_times-replied n (some e) c.store) refl
    Publishes-ended n id _ (Publishes.no_next h k) = rw (h, k, call_times-crashed n c.store) refl
    Publishes-ended n id _ (Publishes.stored {e = e} {s = s} h k u) =
        rw (h, k, u, call_times-replied n e s) refl
    Publishes-ended n id _ (Publishes.store_panics h k u) =
        rw (h, k, u, call_times-crashed n c.store) refl

  module _ (c : Conn S) where
    served : Put → Request → Option (Run S (Unit {0}))
    served put req = ended c (call_times 4 (first_job env put req) c.store)

    PutsState-ended :
        (req : Request) (r : Run S (Unit {0}))
        → PutsState storer (var "id" req) (var "state" req) c r
        → served put_topic_state req ≡ some r
    unfolding served call_times first_job string
    PutsState-ended req _ (PutsState.invalid unnamed) =
        rw (unnamed-parse_state (var "state" req) unnamed) refl
    PutsState-ended req _ (PutsState.updated named other u) =
        let (s, p) = named-parse_state (var "state" req) named in
        rw (p, eq-false (var "state" req) "published" other, u) refl
    PutsState-ended req r (PutsState.published e p) =
        let (s, q) = named-parse_state (var "state" req) (published, e) in
        rw (q, (eq_iff (var "state" req) "published").1 e) (Publishes-ended c 2 (var "id" req) r p)

    PutsReleaseDate-ended :
        (req : Request) (r : Run S (Unit {0}))
        → PutsReleaseDate storer env (var "id" req) req.body c r
        → served put_topic_release_date req ≡ some r
    unfolding served call_times first_job
    PutsReleaseDate-ended req _ (PutsReleaseDate.empty_body h) =
        rw (read_empty env.decode_release req.body h) refl
    PutsReleaseDate-ended req _ (PutsReleaseDate.malformed_body h) =
        rw (read_malformed env.decode_release req.body h) refl
    PutsReleaseDate-ended req _ (PutsReleaseDate.no_date {release = release} h k) =
        rw (read_decoded env.decode_release req.body release h, undated env.parse_time release k)
          refl
    PutsReleaseDate-ended req _ (PutsReleaseDate.updated {release = release} {date = date} h k u) =
        rw
          (
            read_decoded env.decode_release req.body release h,
            dated env.parse_time release date k,
            u,
          )
          refl

    PutsTopic-ended :
        (req : Request) (r : Run S (Unit {0}))
        → PutsTopic storer env (var "id" req) req.body c r
        → served put_topic req ≡ some r
    unfolding served call_times first_job string
    PutsTopic-ended req _ (PutsTopic.unreadable h) = rw h refl
    PutsTopic-ended req _ (PutsTopic.invalid {u = u} {e = e} h v) =
        rw (h, Verdict-validate_update env.parse_time u (some e) v) refl
    PutsTopic-ended req _ (PutsTopic.missing {u = u} h v m) =
        rw (h, Verdict-validate_update env.parse_time u none v, m) refl
    PutsTopic-ended req _ (PutsTopic.not_updated {u = u} h v m w) =
        rw (h, Verdict-validate_update env.parse_time u none v, m, w) refl
    PutsTopic-ended req _ (PutsTopic.updated {u = u} h v m w other) =
        rw
          (
            h,
            Verdict-validate_update env.parse_time u none v,
            m,
            w,
            eq-false u.state "published" other,
          )
          refl
    PutsTopic-ended req r (PutsTopic.published {u = u} {s = s} h v m w e p) =
        rw
          (
            h,
            Verdict-validate_update env.parse_time u none v,
            m,
            w,
            (eq_iff u.state "published").1 e,
          )
          (sym (ended-store c s _) ∙ Publishes-ended (record c { store = s }) 0 (var "id" req) r p)

  -- A job that makes its calls with no other call between them is done after four at the most, and
  -- what it has then sent and stored is what the handler sends and stores, panics included, on a
  -- connection where nothing was sent yet.
  pub first_job-handler_of :
      (put : Put) (req : Request) (c : Conn S)
      → IsFresh c
      → ended c (call_times 4 (first_job env put req) c.store)
        ≡ some (handler_of storer env put req c)
  first_job-handler_of put_topic_state req c fresh =
      unfold served in PutsState-ended c req _ (put_topic_state-PutsState storer env req c fresh)
  first_job-handler_of put_topic_release_date req c fresh =
      unfold served in
      PutsReleaseDate-ended c req _ (put_topic_release_date-PutsReleaseDate storer env req c fresh)
  first_job-handler_of put_topic req c fresh =
      unfold served in PutsTopic-ended c req _ (put_topic-PutsTopic storer env req c fresh)
