-- ===== src/Tests/Website.antt =====
-- The service for the website on a network that knows the URLs of one topic.
use dp_topic_api.Prelude.{String, ◌≡◌, refl, List, [], ◌∷◌, Memᴰ}
use dp_topic_api.Prelude.Text.{concat}
use dp_topic_api.Api.Navigation.{get_navigation_handler}
use dp_topic_api.Api.Public.{
  get_topic_public_handler, get_subtopics_public_handler, get_root_topics_public_handler,
}
use dp_topic_api.Api.Content.{get_content_public_handler}
use dp_topic_api.Api.Routes.{Route, public_routes}
use dp_topic_api.Sdk.Call.{Outgoing, Transport}
use dp_topic_api.Sdk.Paths.{Fits, expand}
use dp_topic_api.Sdk.Exchange.{Link, Attempts}
use dp_topic_api.Tests.Fixtures.{Documents, storer}
use dp_topic_api.Tests.Json.{codec_env}
use dp_topic_api.Tests.Network.{Pages, url, with_vars, network, is_word, no_vars, one_var, at_page}

abbrev of_gdp : List (String × String)
of_gdp = ("id", "gdp") ∷ []

abbrev pages : Pages Documents
pages =
    ("GET http://localhost:25300/navigation", (with_vars [], get_navigation_handler codec_env))
    ∷ (
      "GET http://localhost:25300/topics",
      (with_vars [], get_root_topics_public_handler storer codec_env),
    )
    ∷ (
      "GET http://localhost:25300/topics/gdp",
      (with_vars of_gdp, get_topic_public_handler storer codec_env),
    )
    ∷ (
      "GET http://localhost:25300/topics/gdp/content",
      (with_vars of_gdp, get_content_public_handler storer codec_env),
    )
    ∷ (
      "GET http://localhost:25300/topics/gdp/subtopics",
      (with_vars of_gdp, get_subtopics_public_handler storer codec_env),
    )
    ∷ []

abbrev pub transport : Transport Documents
transport = network pages

module _ (route : Route Documents) (vars : List (String × String)) (out : Outgoing) (s : Documents)
    (fits : Fits (is_word "gdp") route.path vars) (method : out.method ≡ route.method)
    (reached : out.url ≡ concat url (expand route.path vars)) where
  abbrev Answered : Type 0
  Answered = Attempts route vars out s (transport.send out s)

  pub delivers_lem : Memᴰ route (public_routes storer codec_env) → Answered
  delivers_lem (Memᴰ.head e) =
      at_page pages "gdp" route vars out s fits method reached _ [] e (λ f. no_vars vars f.0) refl
  delivers_lem (Memᴰ.tail (Memᴰ.head e)) =
      at_page pages "gdp" route vars out s fits method reached _ [] e (λ f. no_vars vars f.0) refl
  delivers_lem (Memᴰ.tail (Memᴰ.tail (Memᴰ.head e))) =
      at_page pages "gdp" route vars out s fits method reached _ of_gdp e
        (λ f. one_var "gdp" vars f.0 f.1) refl
  delivers_lem (Memᴰ.tail (Memᴰ.tail (Memᴰ.tail (Memᴰ.head e)))) =
      at_page pages "gdp" route vars out s fits method reached _ of_gdp e
        (λ f. one_var "gdp" vars f.0 f.1) refl
  delivers_lem (Memᴰ.tail (Memᴰ.tail (Memᴰ.tail (Memᴰ.tail (Memᴰ.head e))))) =
      at_page pages "gdp" route vars out s fits method reached _ of_gdp e
        (λ f. one_var "gdp" vars f.0 f.1) refl
  delivers_lem (Memᴰ.tail (Memᴰ.tail (Memᴰ.tail (Memᴰ.tail (Memᴰ.tail m))))) = elim m [ ]

unfoldable pub link : Link transport url (public_routes storer codec_env)
link = record {
  segment = is_word "gdp";
  parses = λ route vars m f. refl;
  accepts = λ route vars m f. refl;
  delivers =
      λ route vars out s m f method reached. delivers_lem route vars out s f method reached m;
}
