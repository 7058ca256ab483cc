-- ===== src/Api/Env.antt =====
-- What the handlers take from outside the repository, and from the configuration.
use dp_topic_api.Prelude.{ℕ, String, Option}
use dp_topic_api.Errors.{Result}
use dp_topic_api.Models.Topic.{Time, TopicUpdate, TopicRelease, Decoded}
use dp_topic_api.Api.Respond.{Value}

pub record Env : Type 0 where
  -- `json.Marshal`, `json.Decoder.Decode`, `time.Parse(time.RFC3339, _)` and `unicode.ToLower`
  pub marshal : Value → Result String
  pub decode_release : String → Decoded TopicRelease
  pub decode_update : String → Decoded TopicUpdate
  pub parse_time : String → Option Time
  pub lower : ℕ → ℕ
  -- `topicAPIURL`, and `navigationCacheMaxAge` as `Setup` prints it
  pub topic_api_url : String
  pub navigation_cache_max_age : String
