-- ===== src/Tests/Network.antt =====
-- A network with a page for each URL that it knows.
use dp_topic_api.Prelude.{
  String, ◌≡◌, ◌∙◌, refl, sym, ap, subst, Bool, true, Option, none, some, List, [], ◌∷◌, map, All,
  arith, ◌==◌, eq_iff,
}
use dp_topic_api.Prelude.Text.{concat}
use dp_topic_api.Errors.{Result, ok, err, other}
use dp_topic_api.Http.{Request, lookup, set_header}
use dp_topic_api.Api.Action.{Run, done, panicked, Conn}
use dp_topic_api.Api.Routes.{Handler, Route}
use dp_topic_api.Sdk.Call.{Outgoing, Body, Response, Transport}
use dp_topic_api.Sdk.Paths.{Fits, expand}
use dp_topic_api.Sdk.Exchange.{
  Carries, Reads, text_of, opened, joined, status_or_ok, Attempts, store_of,
}
use dp_topic_api.Tests.Fixtures.{request}

abbrev pub url : String
url = "http://localhost:25300"

-- A request with a path's variables.
abbrev pub with_vars : List (String × String) → Request
with_vars vars = request vars [] ""

abbrev of_sent : Outgoing → Request → Request
of_sent out req = record req {
  method = out.method;
  header = out.header;
  body = text_of out.payload;
}

module _ {S : Type 0} where
  abbrev body_of : Conn S → Body
  body_of c = record { read = (joined c.writer.body, none); close = none }

  abbrev response_of : Conn S → Response
  response_of c = record {
    status = status_or_ok c.writer.sent;
    header = [];
    body = some (body_of c);
  }

  abbrev received : S → Run S (Unit {0}) → Result Response × S
  received s (done tt c) = (ok (response_of c), c.store)
  received s (panicked c) = (err (other "EOF"), c.store)

  abbrev serve : Option (Request × Handler S) → Outgoing → S → Result Response × S
  serve none out s = (err (other "no such host"), s)
  serve (some (req, handler)) out s = received s (handler (of_sent out req) (opened s))

-- By method and URL, the variables and the endpoint of a page.
abbrev pub Pages : Type 0 → Type 0
Pages S = List (String × (Request × Handler S))

abbrev pub key : String → String → String
key method u = concat method (concat " " u)

abbrev pub network : {S : Type 0} → Pages S → Transport S
network pages = record {
  parse_url = ok;
  new_request = λ method u. none;
  add_header = λ k v header. header;
  tokens = record {
    add_service_token = λ t header. set_header "Authorization" t header;
    add_florence = λ t header. header;
  };
  send = λ out s. serve (lookup (key out.method out.url) pages) out s;
}

abbrev pub is_word : String → String → Bool
is_word word v = v == word

pub no_vars :
    (vars : List (String × String)) → map (λ (v : String × String). v.0) vars ≡ [] → vars ≡ []
no_vars [] h = refl
no_vars (v ∷ vars) h = cc

pub one_var :
    (word : String) (vars : List (String × String))
    → map (λ (v : String × String). v.0) vars ≡ "id" ∷ []
    → All (λ (v : String × String). is_word word v.1 ≡ true) vars
    → vars ≡ ("id", word) ∷ []
one_var word [] h a = cc
one_var word ((k, v) ∷ []) h (a, b) =
    let e : k ≡ "id" = cc h in let d : v ≡ word = (eq_iff v word).0 a in rw (e, d) refl
one_var word ((k, v) ∷ w ∷ ws) h a = ground arith

pub two_vars :
    (word : String) (vars : List (String × String))
    → map (λ (v : String × String). v.0) vars ≡ "id" ∷ "state" ∷ []
    → All (λ (v : String × String). is_word word v.1 ≡ true) vars
    → vars ≡ ("id", word) ∷ ("state", word) ∷ []
two_vars word [] h a = cc
two_vars word (v ∷ []) h a = ground arith
two_vars word ((k, v) ∷ (j, w) ∷ []) h (a, (b, c)) =
    let e : k ≡ "id" = cc h in
    let f : j ≡ "state" = cc h in
    let d : v ≡ word = (eq_iff v word).0 a in
    let g : w ≡ word = (eq_iff w word).0 b in rw (e, f, d, g) refl
two_vars word (u ∷ v ∷ w ∷ ws) h a = ground arith

module _ {S : Type 0} (pages : Pages S) (word : String) (route : Route S)
    (vars : List (String × String)) (out : Outgoing) (s : S)
    (fits : Fits (is_word word) route.path vars) (method : out.method ≡ route.method)
    (reached : out.url ≡ concat url (expand route.path vars)) where
  received-Attempts :
      (req : Request) (run : Run S (Unit {0}))
      → Carries out vars req
      → route.handler req (opened s) ≡ run
      → Attempts route vars out s (received s run)
  received-Attempts req (done tt c) k h =
      Attempts.arrived req k c h (response_of c)
        (record { body = body_of c; same_status = refl; has_body = refl; same_body = Reads.whole })
  received-Attempts req (panicked c) k h =
      subst (λ z. Attempts route vars out s (err (other "EOF"), z)) (ap store_of h)
        (Attempts.unanswered (other "EOF") req k)

  delivered :
      (handler : Handler S) (req : Request)
      → lookup (key out.method out.url) pages ≡ some (req, handler)
      → Carries out vars (of_sent out req)
      → route.handler ≡ handler
      → Attempts route vars out s ((network pages).send out s)
  delivered handler req h k e =
      rw h (received-Attempts (of_sent out req) _ k (ap (λ g. g (of_sent out req) (opened s)) e))

  -- Where the endpoint is the one for a page.
  pub at_page :
      (known : Route S) (given : List (String × String))
      → route ≡ known
      → (Fits (is_word word) known.path vars → vars ≡ given)
      → lookup (key known.method (concat url (expand known.path given))) pages
        ≡ some (with_vars given, known.handler)
      → Attempts route vars out s ((network pages).send out s)
  at_page known given e only found =
      let same : vars ≡ given =
        only (subst (λ (r : Route S). Fits (is_word word) r.path vars) e fits) in
      let there : out.url ≡ concat url (expand known.path given) =
        reached
        ∙ ap (λ (r : Route S). concat url (expand r.path vars)) e
        ∙ ap (λ (v : List (String × String)). concat url (expand known.path v)) same in
      let here : out.method ≡ known.method = method ∙ ap (λ (r : Route S). r.method) e in
      delivered known.handler (with_vars given)
        (ap (λ m. lookup (key m out.url) pages) here
          ∙ ap (λ u. lookup (key known.method u) pages) there
          ∙ found)
        (record {
          same_vars = sym same;
          same_method = refl;
          same_body = refl;
          same_header = λ name value h. h;
        })
        (ap (λ (r : Route S). r.handler) e)
