-- ===== src/Tests/Handlers.antt =====
-- The handlers for publishing, at requests to the store in memory.
use dp_topic_api.Prelude.{ℕ, Option, refl, [], ◌∷◌}
use dp_topic_api.Http.{Request}
use dp_topic_api.Api.Private.{
  put_topic_state_private_handler, put_topic_private_handler,
  put_topic_release_date_private_handler, get_subtopics_private_by_id,
}
use dp_topic_api.Api.Private.PutState.{PutsState, put_topic_state-PutsState}
use dp_topic_api.Api.Private.PutTopic.{PutsTopic, put_topic-PutsTopic}
use dp_topic_api.Api.Private.PutReleaseDate.{
  PutsReleaseDate, put_topic_release_date-PutsReleaseDate,
}
use dp_topic_api.Api.Private.Listing.{ListsPrivate, get_subtopics_private_by_id-ListsPrivate}
use dp_topic_api.Api.Query.Requested.{Requested}
use dp_topic_api.Api.Content.{get_content_public_handler, get_content_private_handler}
use dp_topic_api.Api.Content.Replies.{
  Fetches, ShowsCurrent, ShowsBoth, get_content_public_handler-Fetches,
  get_content_private_handler-Fetches,
}
use dp_topic_api.Tests.Fixtures.{storer, env, conn, request}

abbrev publish_economy : Request
publish_economy = request (("id", "economy") ∷ ("state", "published") ∷ []) [] ""

put_topic_state-PutsState_example :
    PutsState storer "economy" "published" conn
      (put_topic_state_private_handler storer env publish_economy conn)
put_topic_state-PutsState_example = put_topic_state-PutsState storer env publish_economy conn refl

abbrev update_gdp : Request
update_gdp = request (("id", "gdp") ∷ []) [] "{}"

put_topic-PutsTopic_example :
    PutsTopic storer env "gdp" "{}" conn (put_topic_private_handler storer env update_gdp conn)
put_topic-PutsTopic_example = put_topic-PutsTopic storer env update_gdp conn refl

put_topic_release_date-PutsReleaseDate_example :
    PutsReleaseDate storer env "gdp" "{}" conn
      (put_topic_release_date_private_handler storer env update_gdp conn)
put_topic_release_date-PutsReleaseDate_example =
    put_topic_release_date-PutsReleaseDate storer env update_gdp conn refl

get_subtopics_private_by_id-ListsPrivate_example :
    ListsPrivate storer env conn "economy" (get_subtopics_private_by_id storer env "economy" conn)
get_subtopics_private_by_id-ListsPrivate_example =
    get_subtopics_private_by_id-ListsPrivate storer env conn "economy" refl

abbrev content_of_economy : Request
content_of_economy = request (("id", "economy") ∷ []) (("type", "publications" ∷ []) ∷ []) ""

get_content_public_handler-Fetches_example :
    (asked : Option ℕ) × Requested env.lower content_of_economy.query asked
    × Fetches storer env conn
        (ShowsCurrent storer env conn)
        "economy"
        asked
        (get_content_public_handler storer env content_of_economy conn)
get_content_public_handler-Fetches_example =
    get_content_public_handler-Fetches storer env conn refl content_of_economy

get_content_private_handler-Fetches_example :
    (asked : Option ℕ) × Requested env.lower content_of_economy.query asked
    × Fetches storer env conn
        (ShowsBoth storer env conn)
        "economy"
        asked
        (get_content_private_handler storer env content_of_economy conn)
get_content_private_handler-Fetches_example =
    get_content_private_handler-Fetches storer env conn refl content_of_economy
