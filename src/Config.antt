-- ===== src/Config.antt =====
-- config/config.go. The library that reads the environment enters as the function `process`, which
-- may change any field before it fails.
pub mod Cached
use dp_topic_api.Prelude.{
  ℕ, String, Bool, true, false, Option, none, some, List, [], ◌∷◌, ◌*◌, zero, suc,
}
use dp_topic_api.Prelude.Int.{ℤ, pos}
use dp_topic_api.Errors.{GoError}

-- `time.Duration`, in nanoseconds
abbrev pub Duration : Type 0
Duration = ℤ

abbrev seconds : ℕ → Duration
seconds n = pos (n * 1000000000)

-- The fields of `mongodb.MongoDriverConfig` that the service sets.
pub record MongoConfig : Type 0 where
  pub cluster_endpoint : String
  pub username : String
  pub password : String
  pub database : String
  pub collections : List (String × String)
  pub replica_set : String
  pub is_strong_read_concern_enabled : Bool
  pub is_write_concern_majority_enabled : Bool
  pub connect_timeout : Duration
  pub query_timeout : Duration
  pub is_ssl : Bool

pub record Config : Type 0 where
  pub bind_addr : String
  pub enable_permissions_auth : Bool
  pub enable_private_endpoints : Bool
  pub graceful_shutdown_timeout : Duration
  pub health_check_critical_timeout : Duration
  pub health_check_interval : Duration
  pub mongo_config : MongoConfig
  pub navigation_cache_max_age : Duration
  pub topic_api_url : String
  pub zebedee_url : String

abbrev pub topics_collection : String
topics_collection = "TopicsCollection"

abbrev pub content_collection : String
content_collection = "ContentCollection"

abbrev pub default_config : Config
default_config = record {
  bind_addr = "localhost:25300";
  enable_permissions_auth = false;
  enable_private_endpoints = false;
  graceful_shutdown_timeout = seconds 10;
  health_check_critical_timeout = seconds 90;
  health_check_interval = seconds 30;
  mongo_config = record {
    cluster_endpoint = "localhost:27017";
    username = "";
    password = "";
    database = "topics";
    collections = (topics_collection, "topics") ∷ (content_collection, "content") ∷ [];
    replica_set = "";
    is_strong_read_concern_enabled = false;
    is_write_concern_majority_enabled = true;
    connect_timeout = seconds 5;
    query_timeout = seconds 15;
    is_ssl = false;
  };
  navigation_cache_max_age = seconds (30 * 60);
  topic_api_url = "http://localhost:25300";
  zebedee_url = "http://localhost:8082";
}

-- What `Get` returns, and the package's variable `cfg` after it.
pub record Gotten : Type 0 where
  pub config : Config
  pub error : GoError
  pub cell : Option Config

module _ (process : Config → Config × GoError) where
  abbrev processed : Config × GoError → Gotten
  processed (config, error) = record { config = config; error = error; cell = some config }

  -- `Get`, by the value of `cfg`.
  unfoldable pub get : Option Config → Gotten
  get (some config) = record { config = config; error = none; cell = some config }
  get none = processed (process default_config)

  -- `cfg` after a number of further calls.
  unfoldable pub cell_after : ℕ → Option Config → Option Config
  unfolding get
  cell_after zero cell = cell
  cell_after (suc n) cell = (get (cell_after n cell)).cell
