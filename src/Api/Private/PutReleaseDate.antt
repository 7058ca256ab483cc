-- ===== src/Api/Private/PutReleaseDate.antt =====
-- `putTopicReleaseDatePrivateHandler` of api/topic_private.go.
use dp_topic_api.Prelude.{String, ◌≡◌, refl, inl, inr, none, some, Option-cases}
use dp_topic_api.Errors.{
  Error, GoError, ok, err, empty_request_body, unable_to_read_message, invalid_release_date,
}
use dp_topic_api.Http.{Request, var}
use dp_topic_api.Models.Topic.{
  Time, TopicRelease, Decoded, eof, malformed, decoded, read_release_date, validate_release,
}
use dp_topic_api.Store.{Storer}
use dp_topic_api.Api.Action.{Conn, Run, done}
use dp_topic_api.Api.Outcome.{IsFresh}
use dp_topic_api.Api.Respond.Statuses.{failed, handle_error_lem, accepted_lem}
use dp_topic_api.Api.Env.{Env}
use dp_topic_api.Api.Private.{write_release_date, put_topic_release_date_private_handler}
use dp_topic_api.Api.Private.Publish.{reply}

module _ {S : Type 0} (storer : Storer S) (env : Env) where
  -- What a request to set the release date of topic `id` may do.
  pub data PutsReleaseDate (id body : String) (c : Conn S) : Run S (Unit {0}) → Type 0 where
    empty_body :
        env.decode_release body ≡ eof
        → PutsReleaseDate id body c (done tt (failed empty_request_body c))
    malformed_body :
        env.decode_release body ≡ malformed
        → PutsReleaseDate id body c (done tt (failed unable_to_read_message c))
    no_date :
        {release : TopicRelease}
        → env.decode_release body ≡ decoded release
        → env.parse_time release.release_date ≡ none
        → PutsReleaseDate id body c (done tt (failed invalid_release_date c))
    updated :
        {release : TopicRelease} {date : Time} {e : GoError} {s : S}
        → env.decode_release body ≡ decoded release
        → env.parse_time release.release_date ≡ some date
        → storer.update_release_date id date c.store ≡ (e, s)
        → PutsReleaseDate id body c (done tt (reply e (record c { store = s })))

  write_release_date_lem :
      (id : String) (date : Time) (c : Conn S) (e : GoError) (s : S)
      → IsFresh c
      → storer.update_release_date id date c.store ≡ (e, s)
      → write_release_date storer env id date c ≡ done tt (reply e (record c { store = s }))
  unfolding write_release_date
  write_release_date_lem id date c none s fresh u =
      rw u (accepted_lem (record c { store = s }) fresh)
  write_release_date_lem id date c (some e) s fresh u =
      rw u (handle_error_lem (record c { store = s }) fresh e)

  module _ (req : Request) (c : Conn S) (fresh : IsFresh c) where
    run : Run S (Unit {0})
    run = put_topic_release_date_private_handler storer env req c

    unread :
        (e : Error)
        → read_release_date env.decode_release req.body ≡ err e
        → run ≡ done tt (failed e c)
    unfolding run put_topic_release_date_private_handler
    unread e h = rw h (handle_error_lem c fresh e)

    undated :
        (release : TopicRelease) (e : Error)
        → read_release_date env.decode_release req.body ≡ ok release
        → validate_release env.parse_time release ≡ err e
        → run ≡ done tt (failed e c)
    unfolding run put_topic_release_date_private_handler
    undated release e h k = rw (h, k) (handle_error_lem c fresh e)

    dated :
        (release : TopicRelease) (date : Time) (e : GoError) (s : S)
        → read_release_date env.decode_release req.body ≡ ok release
        → validate_release env.parse_time release ≡ ok date
        → storer.update_release_date (var "id" req) date c.store ≡ (e, s)
        → run ≡ done tt (reply e (record c { store = s }))
    unfolding run put_topic_release_date_private_handler
    dated release date e s h k u =
        rw (h, k) (write_release_date_lem (var "id" req) date c e s fresh u)

    decoded-PutsReleaseDate :
        (d : Decoded TopicRelease)
        → env.decode_release req.body ≡ d
        → PutsReleaseDate (var "id" req) req.body c run
    unfolding read_release_date validate_release
    decoded-PutsReleaseDate eof h =
        rw (unread empty_request_body (rw (h, read_release_date))) (PutsReleaseDate.empty_body h)
    decoded-PutsReleaseDate malformed h =
        rw (unread unable_to_read_message (rw (h, read_release_date)))
          (PutsReleaseDate.malformed_body h)
    decoded-PutsReleaseDate (decoded release) h =
        elim (Option-cases (env.parse_time release.release_date)) [
          | inl p ↦
              rw
                (undated release invalid_release_date (rw (h, read_release_date))
                  (rw (p, validate_release)))
                (PutsReleaseDate.no_date h p)
          | inr (date, p) ↦
              rw
                (dated release date _ _ (rw (h, read_release_date)) (rw (p, validate_release)) refl)
                (PutsReleaseDate.updated h p refl)
        ]

  -- On a connection where nothing was sent yet, a request to set a release date is refused, and
  -- changes nothing, if its body is empty or malformed or its date does not parse; else the parsed
  -- date is written, and the reply is 200 or the status of the store's error.
  pub put_topic_release_date-PutsReleaseDate :
      (req : Request) (c : Conn S)
      → IsFresh c
      → PutsReleaseDate
          (var "id" req)
          req.body
          c
          (put_topic_release_date_private_handler storer env req c)
  unfolding run
  put_topic_release_date-PutsReleaseDate req c fresh = decoded-PutsReleaseDate req c fresh _ refl
