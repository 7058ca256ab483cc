-- ===== src/Tests/Publishing.antt =====
-- The service for publishing on a network that knows the URLs of the topic "published": the client
-- publishes it.
use dp_topic_api.Prelude.{String, ◌≡◌, refl, none, some, List, [], ◌∷◌, Memᴰ, ◌==◌, if◌then◌else◌}
use dp_topic_api.Prelude.Text.{concat}
use dp_topic_api.Api.Routes.{Route, private_routes}
use dp_topic_api.Mongo.{mongo_storer}
use dp_topic_api.Sdk.Options.{Headers}
use dp_topic_api.Sdk.Call.{Outgoing, Transport}
use dp_topic_api.Sdk.Paths.{Fits, expand}
use dp_topic_api.Sdk.Exchange.{Link, Attempts}
use dp_topic_api.Tests.Fixtures.{auth, env, stored}
use dp_topic_api.Tests.Database.{Topics, driver, clock}
use dp_topic_api.Tests.Network.{
  Pages, key, url, with_vars, network, is_word, no_vars, one_var, two_vars, at_page,
}

abbrev of_id : List (String × String)
of_id = ("id", "published") ∷ []

abbrev of_both : List (String × String)
of_both = ("id", "published") ∷ ("state", "published") ∷ []

abbrev routes : List (Route Topics)
routes = private_routes (mongo_storer driver clock) env auth

abbrev vars_of : String → List (String × String)
vars_of path =
    if path == "/topics"
    then []
    else if path == "/navigation"
    then []
    else if path == "/topics/{id}/state/{state}"
    then of_both
    else of_id

-- The endpoints for publishing, by key.
abbrev paged : List (Route Topics) → Pages Topics
paged [] = []
paged (route ∷ routes) =
    (
      key route.method (concat url (expand route.path (vars_of route.path))),
      (with_vars (vars_of route.path), route.handler),
    )
    ∷ paged routes

abbrev pages : Pages Topics
pages = paged routes

abbrev transport : Transport Topics
transport = network pages

module _ (route : Route Topics) (vars : List (String × String)) (out : Outgoing) (s : Topics)
    (fits : Fits (is_word "published") route.path vars) (method : out.method ≡ route.method)
    (reached : out.url ≡ concat url (expand route.path vars)) where
  delivers_lem : Memᴰ route routes → Attempts route vars out s (transport.send out s)
  delivers_lem (Memᴰ.head e) =
      at_page pages "published" route vars out s fits method reached _ of_id e
        (λ f. one_var "published" vars f.0 f.1) refl
  delivers_lem (Memᴰ.tail (Memᴰ.head e)) =
      at_page pages "published" route vars out s fits method reached _ of_id e
        (λ f. one_var "published" vars f.0 f.1) refl
  delivers_lem (Memᴰ.tail (Memᴰ.tail (Memᴰ.head e))) =
      at_page pages "published" route vars out s fits method reached _ of_id e
        (λ f. one_var "published" vars f.0 f.1) refl
  delivers_lem (Memᴰ.tail (Memᴰ.tail (Memᴰ.tail (Memᴰ.head e)))) =
      at_page pages "published" route vars out s fits method reached _ [] e (λ f. no_vars vars f.0)
        refl
  delivers_lem (Memᴰ.tail (Memᴰ.tail (Memᴰ.tail (Memᴰ.tail (Memᴰ.head e))))) =
      at_page pages "published" route vars out s fits method reached _ [] e (λ f. no_vars vars f.0)
        refl
  delivers_lem (Memᴰ.tail (Memᴰ.tail (Memᴰ.tail (Memᴰ.tail (Memᴰ.tail (Memᴰ.head e)))))) =
      at_page pages "published" route vars out s fits method reached _ of_id e
        (λ f. one_var "published" vars f.0 f.1) refl
  delivers_lem
        (Memᴰ.tail (Memᴰ.tail (Memᴰ.tail (Memᴰ.tail (Memᴰ.tail (Memᴰ.tail (Memᴰ.head e))))))) =
      at_page pages "published" route vars out s fits method reached _ of_both e
        (λ f. two_vars "published" vars f.0 f.1) refl
  delivers_lem
        (Memᴰ.tail
          (Memᴰ.tail (Memᴰ.tail (Memᴰ.tail (Memᴰ.tail (Memᴰ.tail (Memᴰ.tail (Memᴰ.head e)))))))) =
      at_page pages "published" route vars out s fits method reached _ of_id e
        (λ f. one_var "published" vars f.0 f.1) refl
  delivers_lem
        (Memᴰ.tail
          (Memᴰ.tail (Memᴰ.tail (Memᴰ.tail (Memᴰ.tail (Memᴰ.tail (Memᴰ.tail (Memᴰ.tail (m))))))))) =
      elim m [ ]

unfoldable link : Link transport url routes
link = record {
  segment = is_word "published";
  parses = λ route vars m f. refl;
  accepts = λ route vars m f. refl;
  delivers =
      λ route vars out s m f method reached. delivers_lem route vars out s f method reached m;
}

abbrev headers : Headers
headers = record { service_auth_token = "token"; user_auth_token = "" }

abbrev topics : Topics
topics id = if id == "published" then some (stored "published" []) else none
