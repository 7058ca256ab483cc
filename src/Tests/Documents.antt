-- ===== src/Tests/Documents.antt =====
-- The state machine and the checks of topics, at concrete values.
use dp_topic_api.Prelude.{◌≡◌, ◌↔◌, true}
use dp_topic_api.Models.State.{state_created, state_completed, transition_allowed}
use dp_topic_api.Models.State.Lifecycle.{Lifecycle, code, Step, transition_allowed_iff}
use dp_topic_api.Models.Topic.{validate_update}
use dp_topic_api.Models.Topic.Rules.{Verdict, validate_update-Verdict}
use dp_topic_api.Tests.Fixtures.{full_update, parse_time}

transition_allowed_iff_example : (transition_allowed state_created state_completed ≡ true) ↔ (
    (a : Lifecycle) × (b : Lifecycle) × (state_created ≡ code a)
    × (state_completed ≡ code b)
    × Step a b)
transition_allowed_iff_example = transition_allowed_iff state_created state_completed

validate_update-Verdict_example :
    Verdict parse_time full_update (validate_update parse_time full_update)
validate_update-Verdict_example = validate_update-Verdict parse_time full_update
