-- ===== src/Api/Private/PutState.antt =====
-- `putTopicStatePrivateHandler` of api/topic_private.go.
use dp_topic_api.Prelude.{String, ◌≡◌, ◌≢◌, refl, ap, inl, inr, none, some, String-cases, eq_iff}
use dp_topic_api.Errors.{GoError, topic_invalid_state}
use dp_topic_api.Http.{Request, var}
use dp_topic_api.Models.State.{State, string, parse_state}
use dp_topic_api.Models.State.Lifecycle.{Names, parse_state_cases}
use dp_topic_api.Store.{Storer}
use dp_topic_api.Api.Action.{Conn, Run, done}
use dp_topic_api.Api.Outcome.{IsFresh}
use dp_topic_api.Api.Respond.Statuses.{failed, handle_error_lem, accepted_lem}
use dp_topic_api.Api.Env.{Env}
use dp_topic_api.Api.Private.{put_state, set_state, put_topic_state_private_handler}
use dp_topic_api.Api.Private.Publish.{reply, Publishes, publish-Publishes}

module _ {S : Type 0} (storer : Storer S) where
  -- What a request to set the state of topic `id` may do.
  pub data PutsState (id state : String) (c : Conn S) : Run S (Unit {0}) → Type 0 where
    invalid : ¬ (Names state) → PutsState id state c (done tt (failed topic_invalid_state c))
    updated :
        {e : GoError} {s : S}
        → Names state
        → state ≢ "published"
        → storer.update_state id state c.store ≡ (e, s)
        → PutsState id state c (done tt (reply e (record c { store = s })))
    published :
        {r : Run S Unit} → state ≡ "published" → Publishes storer id c r → PutsState id state c r

  module _ (env : Env) (id state : String) (c : Conn S) (fresh : IsFresh c) where
    set_state_lem :
        (e : GoError) (s : S)
        → storer.update_state id state c.store ≡ (e, s)
        → set_state storer env id state c ≡ done tt (reply e (record c { store = s }))
    unfolding set_state
    set_state_lem none s u = rw u (accepted_lem (record c { store = s }) fresh)
    set_state_lem (some e) s u = rw u (handle_error_lem (record c { store = s }) fresh e)

    put_named :
        Names state
        → (parse_state state).1 ≡ none
        → PutsState id state c (put_state storer env id state c)
    unfolding put_state string
    put_named named p = elim (String-cases state "published") [
      | inl e ↦
          rw (p, (eq_iff state "published").1 e)
            (PutsState.published e (publish-Publishes storer env id c fresh))
      | inr other ↦
          rw (p, other, set_state_lem (u).0 (u).1 refl)
            (PutsState.updated named (λ e. cc (other, (eq_iff state "published").1 e)) refl)
    ]
      where
        u : GoError × S
        u = storer.update_state id state c.store

    put_state-PutsState : PutsState id state c (put_state storer env id state c)
    put_state-PutsState = elim (parse_state_cases state) [
      | inl (a, e, p) ↦ put_named (a, e) (ap (λ (r : State × GoError). r.1) p)
      | inr (unnamed, p) ↦ put_unnamed unnamed (ap (λ (r : State × GoError). r.1) p)
    ]
      where
        put_unnamed :
            ¬ (Names state)
            → (parse_state state).1 ≡ some topic_invalid_state
            → PutsState id state c (put_state storer env id state c)
        put_unnamed unnamed p =
            let run : put_state storer env id state c ≡ done tt (failed topic_invalid_state c) =
              unfold put_state in rw p (handle_error_lem c fresh topic_invalid_state) in
            rw run (PutsState.invalid unnamed)

  -- On a connection where nothing was sent yet, a request to set a topic's state does one of these:
  -- a text that names no state is refused and changes nothing; "published" publishes the topic; any
  -- other state is written as it is, and the reply is 200 or the status of the store's error. An
  -- error is never followed by a status of 200.
  pub put_topic_state-PutsState :
      (env : Env) (req : Request) (c : Conn S)
      → IsFresh c
      → PutsState
          (var "id" req)
          (var "state" req)
          c
          (put_topic_state_private_handler storer env req c)
  unfolding put_topic_state_private_handler
  put_topic_state-PutsState env req c fresh =
      put_state-PutsState env (var "id" req) (var "state" req) c fresh
