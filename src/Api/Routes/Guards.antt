-- ===== src/Api/Routes/Guards.antt =====
-- The checks in front of the endpoints for publishing.
use dp_topic_api.Prelude.{
  String, Bool, true, false, ◌≡◌, ◌∙◌, inl, inr, ◌&&◌, ◌==◌, All, ◌&◌, Bool-cases, arith,
  if◌then◌else◌,
}
use dp_topic_api.Http.{Request}
use dp_topic_api.Store.{Storer}
use dp_topic_api.Api.Action.{Conn}
use dp_topic_api.Api.Action.Rules.{KeepsStore}
use dp_topic_api.Api.Action.Replies.{SendsResponse}
use dp_topic_api.Api.Outcome.{store_after, IsAnswered}
use dp_topic_api.Api.Env.{Env}
use dp_topic_api.Api.Routes.{
  Handler, Permissions, read_permission, update_permission, Auth, AuthLaws, Route, is_authenticated,
  is_authorised, private_routes,
}

-- The permission that a method asks for.
abbrev pub needed : String → Permissions
needed method = if method == "GET" then read_permission else update_permission

module _ {S : Type 0} {auth : Auth S} (laws : AuthLaws auth) where
  abbrev pub admitted : Permissions → Request → Bool
  admitted required req = laws.identified req && laws.permitted required req

  module _ (required : Permissions) (handler : Handler S) (req : Request) (c : Conn S) where
    abbrev guarded : Handler S
    guarded = is_authenticated auth (is_authorised auth required handler)

    unidentified : laws.identified req ≡ false → store_after (guarded req c) ≡ c.store
    unidentified h = laws.identity.keeps (is_authorised auth required handler) req c h

    identified_lem :
        laws.identified req ≡ true → guarded req c ≡ is_authorised auth required handler req c
    identified_lem h = laws.identity.passes (is_authorised auth required handler) req c h

    pub guarded-keeps : admitted required req ≡ false → store_after (guarded req c) ≡ c.store
    guarded-keeps h = elim (Bool-cases (laws.identified req)) [
      | inr i ↦ unidentified i
      | inl i ↦
          let refused : laws.permitted required req ≡ false = ground arith in
          rw (identified_lem i) ((laws.permission required).keeps handler req c refused)
    ]

    pub guarded-passes : admitted required req ≡ true → guarded req c ≡ handler req c
    guarded-passes h =
        let identified : laws.identified req ≡ true = ground arith in
        let permitted : laws.permitted required req ≡ true = ground arith in
        identified_lem identified ∙ (laws.permission required).passes handler req c permitted

    guarded-answers : admitted required req ≡ false → IsAnswered (guarded req c)
    guarded-answers h = elim (Bool-cases (laws.identified req)) [
      | inr i ↦ laws.identity.answers (is_authorised auth required handler) req c i
      | inl i ↦
          let refused : laws.permitted required req ≡ false = ground arith in
          rw (identified_lem i) ((laws.permission required).answers handler req c refused)
    ]

  module _ (required : Permissions) (handler : Handler S) (req : Request) where
    pub guarded-KeepsStore :
        KeepsStore (handler req)
        → KeepsStore (is_authenticated auth (is_authorised auth required handler) req)
    guarded-KeepsStore k = record {
      at = λ c. elim (Bool-cases (admitted required req)) [
        | inl a ↦ rw (guarded-passes required handler req c a) (k.at c)
        | inr r ↦ guarded-keeps required handler req c r
      ];
    }

    pub guarded-SendsResponse :
        SendsResponse (handler req)
        → SendsResponse (is_authenticated auth (is_authorised auth required handler) req)
    guarded-SendsResponse k = record {
      at = λ c. elim (Bool-cases (admitted required req)) [
        | inl a ↦ rw (guarded-passes required handler req c a) (k.at c)
        | inr r ↦ guarded-answers required handler req c r
      ];
    }

-- Where the checks keep to their laws, a request to any endpoint for publishing leaves the store as
-- it was unless the caller is identified and has the permission that the method asks for: to read
-- for a GET, to update for any other.
pub private_routes-refused :
    {S : Type 0} (storer : Storer S) (env : Env) (auth : Auth S) (laws : AuthLaws auth)
    → All
        (λ (route : Route S).
          (req : Request) (c : Conn S)
          → admitted laws (needed route.method) req ≡ false
          → store_after (route.handler req c) ≡ c.store)
        (private_routes storer env auth)
private_routes-refused storer env auth laws =
    guarded-keeps laws read_permission _
    & guarded-keeps laws read_permission _
    & guarded-keeps laws read_permission _
    & guarded-keeps laws read_permission _
    & guarded-keeps laws read_permission _
    & guarded-keeps laws update_permission _
    & guarded-keeps laws update_permission _
    & guarded-keeps laws update_permission _
    & tt
