-- ===== src/Service/Outside.antt =====
-- What the start of the service takes from outside the repository.
use dp_topic_api.Prelude.{String, ◌≡◌, List}
use dp_topic_api.Errors.{GoError}
use dp_topic_api.Config.{Duration, MongoConfig}
use dp_topic_api.Store.{Storer}
use dp_topic_api.Api.Env.{Env}
use dp_topic_api.Api.Routes.{Handler, Permissions, Route}

-- `Mongo` of mongo/topic_store.go: the configuration of its connection, and the databases with the
-- collections that its health client looks at.
pub record Mongo : Type 0 where
  pub config : MongoConfig
  pub health_client : List (String × List String)

-- `healthcheck.HealthCheck`, by what it is made of.
pub record HealthCheck : Type 0 where
  pub build_time : String
  pub git_commit : String
  pub version : String
  pub critical_timeout : Duration
  pub interval : Duration

-- `S` is the state of the database and `C` the type of the chains of justinas/alice.
pub record Outside (S C : Type 0) : Type 0 where
  -- `mongodriver.Open`, and `ActualCollectionName` of a configuration
  pub open_mongo : MongoConfig → GoError
  pub actual_collection_name : MongoConfig → String → String
  -- `healthcheck.NewVersionInfo`; `AddCheck` and `Handler` of a health check
  pub new_version_info : String → String → String → GoError
  pub add_check : String → GoError
  pub health_handler : HealthCheck → Handler S
  -- `alice.New` of one constructor, `Append` of one, and `Then`
  pub new_chain : (Handler S → Handler S) → C
  pub append_chain : C → (Handler S → Handler S) → C
  pub chain_then : C → Handler S → Handler S
  -- `dphandlers.IdentityWithHTTPClient` of a client for a URL, and `dphandlers.CheckIdentity`
  pub identity : String → Handler S → Handler S
  pub check_identity : Handler S → Handler S
  -- `Require` of `auth.NopHandler`, and of `auth.NewHandler` for a URL
  pub nop_require : Permissions → Handler S → Handler S
  pub permissions_require : String → Permissions → Handler S → Handler S
  -- the router of gorilla/mux, with the endpoints registered
  pub dispatch : List (Route S) → Handler S
  -- the operations of mongo/topic_store.go on a connection
  pub storer : Mongo → Storer S
  -- the fields of `Env` that are no configuration, and `Sprintf("%.0f", d.Seconds())`
  pub libraries : Env
  pub print_seconds : Duration → String

-- What alice documents: the first constructor of a chain is the outermost.
pub record ChainLaws {S C : Type 0} (outside : Outside S C) : Type 0 where
  pub then_new :
      (m : Handler S → Handler S) (h : Handler S) → outside.chain_then (outside.new_chain m) h ≡ m h
  pub then_append :
      (chain : C) (m : Handler S → Handler S) (h : Handler S)
      → outside.chain_then (outside.append_chain chain m) h ≡ outside.chain_then chain (m h)
