-- ===== src/Sdk/Exchange.antt =====
-- The client and the service together: what a call of the client gets from the endpoint that its path
-- reaches.
pub mod Replies
pub mod Settled
pub mod Fetched
pub mod Published
use dp_topic_api.Prelude.{
  ℕ, ◌≤◌, String, ◌≡◌, ◌≢◌, refl, sym, ap, subst, ◌∙◌, ◌⊎◌, Bool, true, false, Option, none, some,
  List, [], ◌∷◌, Memᴰ, All, inl, inr, eq_iff, String-cases, arith, ltb, leb, ◌||◌, ◌==◌,
  if◌then◌else◌,
}
use dp_topic_api.Prelude.Text.{concat}
use dp_topic_api.Errors.{Error, GoError, Result, ok, err, Result-cases, topic_not_found}
use dp_topic_api.Http.{Request, ResponseWriter, Sent, fresh, lookup}
use dp_topic_api.Models.Topic.{Topic, TopicResponse}
use dp_topic_api.Store.{Storer}
use dp_topic_api.Api.Action.{Conn, Run, done, panicked}
use dp_topic_api.Api.Respond.{current_topic, error_status}
use dp_topic_api.Api.Respond.Statuses.{failed, finished, handle_error_lem, finish_lem}
use dp_topic_api.Api.Env.{Env}
use dp_topic_api.Api.Public.{topic_root, get_topic_public_handler}
use dp_topic_api.Api.Routes.{Route, get_route, public_routes}
use dp_topic_api.Sdk.Options.{Headers}
use dp_topic_api.Sdk.Call.{
  Outgoing, Body, Response, Transport, Failure, failure_of, unexpected_code, Reply, answered,
  info_of, unreadable, not_sent, Called, take_result, call_topic_api, request_for, take_response,
}
use dp_topic_api.Sdk.Client.{Decoders, Got, got, nothing, fetch, put, get_topic_public}
use dp_topic_api.Sdk.Paths.{expand, Fits}

abbrev pub joined : List String → String
joined [] = ""
joined (s ∷ []) = s
joined (s ∷ t ∷ ts) = concat s (joined (t ∷ ts))

abbrev pub status_or_ok : Option Sent → ℕ
status_or_ok none = 200
status_or_ok (some sent) = sent.status

-- What reading the body of a response with a text gives: the text, or an error with a part of it.
pub data Reads (text : String) : String × GoError → Type 0 where
  whole : Reads text (text, none)
  broken_off : (part : String) (e : Error) → Reads text (part, some e)

-- The response that reaches the client from a writer.
pub record Arrives (w : ResponseWriter) (resp : Response) : Type 0 where
  pub body : Body
  pub same_status : resp.status ≡ status_or_ok w.sent
  pub has_body : resp.body ≡ some body
  pub same_body : Reads (joined w.body) body.read

-- A connection for a new request.
abbrev pub opened : {S : Type 0} → S → Conn S
opened s = record { store = s; writer = fresh false }

abbrev pub text_of : Option String → String
text_of none = ""
text_of (some text) = text

-- A request that the router hands to an endpoint for one that was sent: the variables of the path are
-- added, and the network may add to the header.
pub record Carries (out : Outgoing) (vars : List (String × String)) (req : Request) : Type 0 where
  pub same_vars : req.vars ≡ vars
  pub same_method : req.method ≡ out.method
  pub same_body : req.body ≡ text_of out.payload
  pub same_header :
      (name value : String)
      → lookup name out.header ≡ some value
      → lookup name req.header ≡ some value

-- The state that a run of an endpoint leaves behind.
abbrev pub store_of : {S : Type 0} → Run S (Unit {0}) → S
store_of (done tt c) = c.store
store_of (panicked c) = c.store

-- What may come of sending a request to an endpoint: its response arrives, or the client gets an
-- error, whether the request has reached the endpoint or not; and before that, the client may have
-- tried in vain, with a request that has reached it.
pub data Attempts {S : Type 0} (route : Route S) (vars : List (String × String)) (out : Outgoing)
    : S → Result Response × S → Type 0 where
  arrived :
      {s : S} (req : Request)
      → Carries out vars req
      → (c : Conn S) → route.handler req (opened s) ≡ done tt c
      → (resp : Response) → Arrives c.writer resp
      → Attempts route vars out s (ok resp, c.store)
  unreached : {s : S} (e : Error) → Attempts route vars out s (err e, s)
  unanswered :
      {s : S} (e : Error) (req : Request)
      → Carries out vars req
      → Attempts route vars out s (err e, store_of (route.handler req (opened s)))
  again :
      {s : S} {r : Result Response × S} (req : Request)
      → Carries out vars req
      → Attempts route vars out (store_of (route.handler req (opened s))) r
      → Attempts route vars out s r

-- The same for an endpoint that leaves the connection `c`, and the state as it was.
pub data Delivery {S : Type 0} (s : S) (c : Conn S) : Result Response × S → Type 0 where
  arrived : (resp : Response) → Arrives c.writer resp → Delivery s c (ok resp, c.store)
  unreached : (e : Error) → Delivery s c (err e, s)
  unanswered : (e : Error) → Delivery s c (err e, c.store)

-- The service reached over the network, for texts that stand in a path as they are (`segment`): a
-- request for the path of an endpoint, with its variables put in, goes to that endpoint and to no
-- other, as often as the client tries, unless the network fails.
pub record Link {S : Type 0} (transport : Transport S) (url : String) (routes : List (Route S))
    : Type 0 where
  pub segment : String → Bool
  pub parses :
      (route : Route S) (vars : List (String × String))
      → Memᴰ route routes
      → Fits segment route.path vars
      → transport.parse_url (concat url (expand route.path vars))
        ≡ ok (concat url (expand route.path vars))
  pub accepts :
      (route : Route S) (vars : List (String × String))
      → Memᴰ route routes
      → Fits segment route.path vars
      → transport.new_request route.method (concat url (expand route.path vars)) ≡ none
  pub delivers :
      (route : Route S) (vars : List (String × String)) (out : Outgoing) (s : S)
      → Memᴰ route routes
      → Fits segment route.path vars
      → out.method ≡ route.method
      → out.url ≡ concat url (expand route.path vars)
      → Attempts route vars out s (transport.send out s)

pub done_injective :
    {S : Type 0} (c c' : Conn S) → ◌≡◌ {A = Run S (Unit {0})} (done tt c) (done tt c') → c ≡ c'
done_injective c c' h = cc (h)

module _ {S : Type 0} (route : Route S) (vars : List (String × String)) (out : Outgoing) (s : S)
    (w : ResponseWriter)
    (runs : (req : Request)
      → Carries out vars req
      → route.handler req (opened s) ≡ done tt (record { store = s; writer = w })) where
  abbrev left : Conn S
  left = record { store = s; writer = w }

  runs_alike :
      (s' : S) (req : Request)
      → s' ≡ s
      → Carries out vars req
      → route.handler req (opened s') ≡ done tt left
  runs_alike s' req e k = ap (λ z. route.handler req (opened z)) e ∙ runs req k

  -- However often an endpoint runs that keeps the state, what comes of it is that of one run.
  pub Attempts-Delivery :
      (s' : S) (r : Result Response × S) → s' ≡ s → Attempts route vars out s' r → Delivery s left r
  Attempts-Delivery s' _ e (Attempts.arrived req k c h resp a) =
      subst (λ (d : Conn S). Delivery s d (ok resp, c.store))
        (done_injective c left (sym h ∙ runs_alike s' req e k)) (Delivery.arrived resp a)
  Attempts-Delivery s' _ e (Attempts.unreached e') =
      subst (λ z. Delivery s left (err e', z)) (sym e) (Delivery.unreached e')
  Attempts-Delivery s' _ e (Attempts.unanswered e' req k) =
      subst (λ z. Delivery s left (err e', z)) (sym (ap store_of (runs_alike s' req e k)))
        (Delivery.unanswered e')
  Attempts-Delivery s' r e (Attempts.again req k rest) =
      Attempts-Delivery _ r (ap store_of (runs_alike s' req e k)) rest
