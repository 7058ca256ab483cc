-- ===== src/Api/Navigation.antt =====
-- api/navigation.go: the handler of the site navigation.
pub mod Entry
pub mod Labels
pub mod Business
pub mod Economy
pub mod Employment
pub mod People
pub mod Others
pub mod Shape
pub mod Effects
use dp_topic_api.Prelude.{String, none, some, ◌==◌, if◌then◌else◌}
use dp_topic_api.Prelude.Text.{concat}
use dp_topic_api.Http.{Request, get_value, set_on}
use dp_topic_api.Models.Navigation.{Navigation, SubtopicItems, item, end}
use dp_topic_api.Api.Navigation.Labels.{english, welsh, description_in}
use dp_topic_api.Api.Navigation.Business.{business_item}
use dp_topic_api.Api.Navigation.Economy.{economy_item}
use dp_topic_api.Api.Navigation.Employment.{employment_item}
use dp_topic_api.Api.Navigation.People.{people_item}
use dp_topic_api.Api.Navigation.Others.{census_item, survey_item}
use dp_topic_api.Api.Action.{Action, respond, ◌>>=◌, ◌>>◌}
use dp_topic_api.Api.Respond.{navigation, finish}
use dp_topic_api.Api.Env.{Env}

unfoldable pub get_nav_items : String → SubtopicItems × String
unfolding business_item economy_item employment_item people_item census_item survey_item
    description_in
get_nav_items lang = (
  item (business_item lang) (
      item (economy_item lang) (
        item (employment_item lang)
          (item (people_item lang) (item (census_item lang) (item (survey_item lang) end))))),
  description_in lang,
)

-- The body of the response in one language.
unfoldable pub navigation_in : String → Navigation
unfolding get_nav_items
navigation_in lang = record {
  description = (get_nav_items lang).1;
  links = some (record {
    content = none;
    self = some (record { href = "/navigation"; id = "" });
    subtopics = none;
  });
  items = (get_nav_items lang).0;
}

unfoldable pub get_navigation_handler : {S : Type 0} → Env → Request → Action S (Unit {0})
unfolding set_on finish
get_navigation_handler env req = do
  respond (λ w.
      some (set_on "Cache-Control" (concat "public, max-age=" env.navigation_cache_max_age) w))
  finish env.marshal
      (navigation (navigation_in (if get_value "lang" req.query == "cy" then welsh else english)))
