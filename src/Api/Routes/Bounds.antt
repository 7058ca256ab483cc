-- ===== src/Api/Routes/Bounds.antt =====
-- The endpoints and the statuses that they send.
use dp_topic_api.Prelude.{
  ℕ, ◌≡◌, refl, sym, subst, some-injective, Bool, true, false, Option, none, some, Memᴰ, All,
  All-at, ◌&◌,
}
use dp_topic_api.Http.{Request, Sent}
use dp_topic_api.Store.{Storer}
use dp_topic_api.Api.Action.{Action, Conn, Run}
use dp_topic_api.Api.Action.Bounds.{IsStatus, SentStatus, KeepsBounds}
use dp_topic_api.Api.Outcome.{IsFresh, final, status_after, status_sent}
use dp_topic_api.Api.Env.{Env}
use dp_topic_api.Api.Private.Bounds.{
  get_topic_private_handler-KeepsBounds, get_subtopics_private_handler-KeepsBounds,
  get_root_topics_private_handler-KeepsBounds, put_topic_release_date_private_handler-KeepsBounds,
  put_topic_state_private_handler-KeepsBounds, put_topic_private_handler-KeepsBounds,
}
use dp_topic_api.Api.Public.Bounds.{
  get_topic_public_handler-KeepsBounds, get_subtopics_public_handler-KeepsBounds,
  get_root_topics_public_handler-KeepsBounds,
}
use dp_topic_api.Api.Content.Bounds.{
  get_content_public_handler-KeepsBounds, get_content_private_handler-KeepsBounds,
}
use dp_topic_api.Api.Navigation.Effects.{get_navigation_handler-KeepsBounds}
use dp_topic_api.Api.Routes.{
  Handler, Permissions, Auth, AuthLaws, Route, read_permission, update_permission, is_authenticated,
  is_authorised, setup,
}
use dp_topic_api.Api.Routes.Guards.{admitted, needed, guarded-passes}

-- A status that went out is one of the service's.
abbrev AnswersWithin : {S : Type 0} → Run S (Unit {0}) → Type 0
AnswersWithin r = (code : ℕ) → status_after r ≡ some code → IsStatus code

within :
    (sent : Option Sent) (code : ℕ) → SentStatus sent → status_sent sent ≡ some code → IsStatus code
within none code h e = cc (e)
within (some sent) code h e = subst IsStatus (some-injective _ _ e) h

KeepsBounds-AnswersWithin :
    {S : Type 0} (m : Action S (Unit {0})) (c : Conn S)
    → KeepsBounds m
    → IsFresh c
    → AnswersWithin (m c)
KeepsBounds-AnswersWithin m c k fresh code e =
    within (final (m c)).writer.sent code (k.at c (subst SentStatus (sym fresh) tt)) e

module _ {S : Type 0} (storer : Storer S) (env : Env) (auth : Auth S) (laws : AuthLaws auth) where
  -- What is stated of each endpoint: nothing of those that the checks refuse.
  abbrev Within : Bool → Route S → Type 0
  Within enable_private_endpoints route =
      (req : Request) (c : Conn S)
      → IsFresh c
      → (enable_private_endpoints ≡ true → admitted laws (needed route.method) req ≡ true)
      → AnswersWithin (route.handler req c)

  guarded-AnswersWithin :
      (required : Permissions) (handler : Handler S) (req : Request) (c : Conn S)
      → KeepsBounds (handler req)
      → IsFresh c
      → admitted laws required req ≡ true
      → AnswersWithin (is_authenticated auth (is_authorised auth required handler) req c)
  guarded-AnswersWithin required handler req c k fresh h code e =
      KeepsBounds-AnswersWithin (handler req) c k fresh code
        (subst (λ r. status_after r ≡ some code) (guarded-passes laws required handler req c h) e)

  showing :
      (handler : Handler S)
      → ((req : Request) → KeepsBounds (handler req))
      → (req : Request) (c : Conn S) → IsFresh c
      → AnswersWithin (handler req c)
  showing handler k req c fresh = KeepsBounds-AnswersWithin (handler req) c (k req) fresh

  admitting :
      (required : Permissions) (handler : Handler S)
      → ((req : Request) → KeepsBounds (handler req))
      → (req : Request) (c : Conn S) → IsFresh c
      → (true ≡ true → admitted laws required req ≡ true)
      → AnswersWithin (is_authenticated auth (is_authorised auth required handler) req c)
  admitting required handler k req c fresh h =
      guarded-AnswersWithin required handler req c (k req) fresh (h refl)

  setup-Within :
      (enable_private_endpoints : Bool)
      → All (Within enable_private_endpoints) (setup storer env auth enable_private_endpoints)
  setup-Within false =
      (λ req c fresh _. showing _ (get_navigation_handler-KeepsBounds env) req c fresh)
      & (λ req c fresh _.
          showing _ (get_root_topics_public_handler-KeepsBounds storer env) req c fresh)
      & (λ req c fresh _. showing _ (get_topic_public_handler-KeepsBounds storer env) req c fresh)
      & (λ req c fresh _. showing _ (get_content_public_handler-KeepsBounds storer env) req c fresh)
      & (λ req c fresh _.
          showing _ (get_subtopics_public_handler-KeepsBounds storer env) req c fresh)
      & tt
  setup-Within true =
      admitting read_permission _ (get_topic_private_handler-KeepsBounds storer env)
      & admitting read_permission _ (get_subtopics_private_handler-KeepsBounds storer env)
      & admitting read_permission _ (get_content_private_handler-KeepsBounds storer env)
      & admitting read_permission _ (get_root_topics_private_handler-KeepsBounds storer env)
      & admitting read_permission _ (get_navigation_handler-KeepsBounds env)
      & admitting update_permission _
          (put_topic_release_date_private_handler-KeepsBounds storer env)
      & admitting update_permission _ (put_topic_state_private_handler-KeepsBounds storer env)
      & admitting update_permission _ (put_topic_private_handler-KeepsBounds storer env)
      & tt

  -- Where the checks keep to their laws, an endpoint that answers a request, on a connection where
  -- nothing was sent yet, answers with 200, 400, 403, 404 or 500, whatever the database answers, and
  -- in either configuration of the service; with the endpoints for publishing, that is so of the
  -- requests that the checks admit.
  pub setup-IsStatus :
      (enable_private_endpoints : Bool) (route : Route S)
      → Memᴰ route (setup storer env auth enable_private_endpoints)
      → (req : Request) (c : Conn S) → IsFresh c
      → (enable_private_endpoints ≡ true → admitted laws (needed route.method) req ≡ true)
      → (code : ℕ) → status_after (route.handler req c) ≡ some code
      → IsStatus code
  setup-IsStatus enable_private_endpoints route member =
      All-at (Within enable_private_endpoints) route
        (setup storer env auth enable_private_endpoints) (setup-Within enable_private_endpoints)
        member
