-- ===== src/Service/Start.antt =====
-- `New`, `Run` and what they call of service/service.go, service/initialise.go, and `NewDBConnection`
-- of mongo/topic_store.go. The router is shared: `Setup` registers its endpoints on it after the
-- server was made with it, so that the server's handler is a function of the endpoints.
pub mod Outcomes
pub mod Serves
use dp_topic_api.Prelude.{
  String, Bool, true, false, ◌||◌, Option, none, some, List, [], ◌∷◌, ◌++◌, if◌then◌else◌,
}
use dp_topic_api.Errors.{Error, GoError, Result, ok, err}
use dp_topic_api.Config.{Config, MongoConfig, topics_collection, content_collection}
use dp_topic_api.Store.{Storer}
use dp_topic_api.Api.Env.{Env}
use dp_topic_api.Api.Routes.{Handler, Permissions, Auth, Route, setup}
use dp_topic_api.Service.{ServiceList}
use dp_topic_api.Service.Outside.{Outside, Mongo, HealthCheck}
use dp_topic_api.Service.Middleware.{create_middleware}

-- The server, by the address and the handler that it is made with.
pub record Server (S : Type 0) : Type 0 where
  pub bind_addr : String
  pub handler : List (Route S) → Handler S

pub record Service (S : Type 0) : Type 0 where
  pub config : Config
  pub service_list : ServiceList
  pub mongo_db : Option Mongo
  -- the URL of the client
  pub identity_client : Option String
  pub health_check : Option HealthCheck
  pub server : Option (Server S)
  -- the endpoints that `Setup` has registered
  pub api : Option (List (Route S))

pub data Event : Type 0 where
  check_added : String → Event
  health_started : Event
  listening : String → Event

-- The errors of `Run`.
pub data RunError : Type 0 where
  mongo_failed : Error → RunError
  health_check_failed : Error → RunError
  checkers_failed : RunError

-- `Run`: the service after it, what it set going, and the error.
pub record Ran (S : Type 0) : Type 0 where
  pub service : Service S
  pub events : List Event
  pub error : Option RunError

-- `NewServiceList`, and `New`
abbrev pub new_service_list : ServiceList
new_service_list = record { health_check = false; mongo_db = false }

abbrev pub new : {S : Type 0} → Config → ServiceList → Service S
new config service_list = record {
  config = config;
  service_list = service_list;
  mongo_db = none;
  identity_client = none;
  health_check = none;
  server = none;
  api = none;
}

abbrev or_value : {A : Type 0} → GoError → A → Result A
or_value none a = ok a
or_value (some e) a = err e

abbrev pub has_error : GoError → Bool
has_error none = false
has_error (some e) = true

module _ {S C : Type 0} (outside : Outside S C) where
  unfoldable pub new_db_connection : MongoConfig → Result Mongo
  new_db_connection cfg = or_value (outside.open_mongo cfg) (record {
    config = cfg;
    health_client =
        (
          cfg.database,
          outside.actual_collection_name cfg topics_collection
              ∷ outside.actual_collection_name cfg content_collection
              ∷ [],
        )
        ∷ [];
  })

  abbrev mongo_result : ServiceList → Result Mongo → Result Mongo × ServiceList
  mongo_result list (err e) = (err e, list)
  mongo_result list (ok mongo) = (ok mongo, record list { mongo_db = true })

  -- `GetMongoDB`
  unfoldable pub get_mongo_db : ServiceList → MongoConfig → Result Mongo × ServiceList
  unfolding new_db_connection
  get_mongo_db list cfg = mongo_result list (new_db_connection cfg)

  unfoldable pub do_get_health_check : Config → String → String → String → Result HealthCheck
  do_get_health_check config build_time git_commit version =
      or_value (outside.new_version_info build_time git_commit version) (record {
        build_time = build_time;
        git_commit = git_commit;
        version = version;
        critical_timeout = config.health_check_critical_timeout;
        interval = config.health_check_interval;
      })

  abbrev health_result : ServiceList → Result HealthCheck → Result HealthCheck × ServiceList
  health_result list (err e) = (err e, list)
  health_result list (ok health_check) = (ok health_check, record list { health_check = true })

  -- `GetHealthCheck`
  unfoldable pub get_health_check :
      ServiceList → Config → String → String → String → Result HealthCheck × ServiceList
  unfolding do_get_health_check
  get_health_check list config build_time git_commit version =
      health_result list (do_get_health_check config build_time git_commit version)

  -- `registerCheckers`: the checks that it adds, and whether one could not be added.
  unfoldable pub register_checkers : Config → List Event × Bool
  register_checkers config =
      if config.enable_private_endpoints
      then (
        check_added "Zebedee" ∷ check_added "Mongo DB" ∷ [],
        has_error (outside.add_check "Zebedee") || has_error (outside.add_check "Mongo DB"),
      )
      else (check_added "Mongo DB" ∷ [], has_error (outside.add_check "Mongo DB"))

  abbrev pub get_authorisation_handlers : Config → Permissions → Handler S → Handler S
  get_authorisation_handlers config =
      if config.enable_permissions_auth
      then outside.permissions_require config.zebedee_url
      else outside.nop_require

  -- What `Setup` is given, by the configuration.
  abbrev pub env_of : Config → Env
  env_of config = record outside.libraries {
    topic_api_url = config.topic_api_url;
    navigation_cache_max_age = outside.print_seconds config.navigation_cache_max_age;
  }

  abbrev pub auth_of : Config → Auth S
  auth_of config = record {
    check_identity = outside.check_identity;
    require = get_authorisation_handlers config;
  }

  abbrev pub endpoints : Config → Mongo → List (Route S)
  endpoints config mongo =
      setup (outside.storer mongo) (env_of config) (auth_of config) config.enable_private_endpoints

  abbrev pub make_server : Config → HealthCheck → String → Server S
  make_server config health_check identity_client = record {
    bind_addr = config.bind_addr;
    handler = λ routes.
        outside.chain_then (create_middleware outside config health_check identity_client)
          (outside.dispatch routes);
  }

  -- The rest of `Run` once the checks are registered.
  abbrev serve : Service S → Mongo → HealthCheck → String → List Event × Bool → Ran S
  serve svc mongo health_check identity_client (events, true) = record {
    service = svc;
    events = events;
    error = some checkers_failed;
  }
  serve svc mongo health_check identity_client (events, false) = record {
    service = record svc {
      server = some (make_server svc.config health_check identity_client);
      api = some (endpoints svc.config mongo);
    };
    events = events ++ health_started ∷ listening svc.config.bind_addr ∷ [];
    error = none;
  }

  abbrev with_health : Service S → Mongo → Result HealthCheck × ServiceList → Ran S
  unfolding register_checkers
  with_health svc mongo (err e, list) = record {
    service = record svc { service_list = list; health_check = none };
    events = [];
    error = some (health_check_failed e);
  }
  with_health svc mongo (ok health_check, list) =
      serve (record svc { service_list = list; health_check = some health_check }) mongo
        health_check svc.config.zebedee_url (register_checkers svc.config)

  abbrev with_mongo : Service S → String → String → String → Result Mongo × ServiceList → Ran S
  unfolding register_checkers get_health_check
  with_mongo svc build_time git_commit version (err e, list) = record {
    service = record svc { service_list = list; mongo_db = none };
    events = [];
    error = some (mongo_failed e);
  }
  with_mongo svc build_time git_commit version (ok mongo, list) =
      let svc' : Service S = record svc {
        service_list = list;
        mongo_db = some mongo;
        identity_client =
            if svc.config.enable_private_endpoints
            then some svc.config.zebedee_url
            else svc.identity_client;
      } in
      with_health svc' mongo
        (get_health_check svc'.service_list svc'.config build_time git_commit version)

  unfoldable pub run : Service S → String → String → String → Ran S
  unfolding register_checkers get_health_check get_mongo_db
  run svc build_time git_commit version =
      with_mongo svc build_time git_commit version
        (get_mongo_db svc.service_list svc.config.mongo_config)
