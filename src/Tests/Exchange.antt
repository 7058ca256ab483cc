-- ===== src/Tests/Exchange.antt =====
-- The client at a service over the network.
use dp_topic_api.Prelude.{false, ◌≡◌, refl, none, some, [], ◌∷◌}
use dp_topic_api.Api.Respond.{finish}
use dp_topic_api.Api.Public.{get_topic_public_handler}
use dp_topic_api.Sdk.Options.{Headers}
use dp_topic_api.Sdk.Call.{call_topic_api, request_for, take_response}
use dp_topic_api.Sdk.Call.Outcomes.{Goes, call_topic_api-Goes}
use dp_topic_api.Sdk.Client.{got, get_topic_public}
use dp_topic_api.Api.Routes.{setup}
use dp_topic_api.Sdk.Endpoints.{topic_public, target_of, url_of, Registers, after_call}
use dp_topic_api.Sdk.Endpoints.Reached.{after_call-Registers}
use dp_topic_api.Tests.Fixtures.{auth, Documents, storer}
use dp_topic_api.Tests.Json.{gdp, codec_env, decoders}
use dp_topic_api.Tests.Network.{url}
use dp_topic_api.Tests.Website.{transport}

abbrev headers : Headers
headers = record { service_auth_token = ""; user_auth_token = "" }

-- A store with the topic "gdp", updated at some time.
abbrev stored : Documents
stored =
    (
      "gdp",
      record {
        id = "gdp";
        next = none;
        current = some (record gdp { last_updated = some (record { nanos = 7 }) });
      },
    )
    ∷ []

got_gdp : get_topic_public transport decoders url headers "gdp" stored ≡ (got gdp, stored)
unfolding get_topic_public get_topic_public_handler call_topic_api take_response finish
got_gdp = refl

call_topic_api-Goes_example :
    Goes transport "http://localhost:25300/topics/gdp" "GET" headers none stored
      (call_topic_api transport "http://localhost:25300/topics/gdp" "GET" headers none stored)
call_topic_api-Goes_example =
    call_topic_api-Goes transport "http://localhost:25300/topics/gdp" "GET" headers none stored

after_call-Registers_example :
    Registers (setup storer codec_env auth false) (target_of (topic_public "gdp"))
    × (after_call transport decoders url headers (topic_public "gdp") stored
        ≡ (transport.send
            (request_for transport (url_of url (topic_public "gdp")) "GET" headers none)
            stored).1)
after_call-Registers_example =
    after_call-Registers storer codec_env auth transport decoders url headers (topic_public "gdp")
      stored refl refl
