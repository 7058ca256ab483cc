-- ===== src/Service.antt =====
-- service/service.go and service/initialise.go: how the service starts and stops.
pub mod Outside
pub mod Middleware
pub mod Start
pub mod Close
use dp_topic_api.Prelude.{Bool}

-- `ExternalServiceList`: which of the services were created.
pub record ServiceList : Type 0 where
  pub health_check : Bool
  pub mongo_db : Bool
