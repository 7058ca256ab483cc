-- ===== src/Service/Middleware.antt =====
-- `healthcheckMiddleware` and `createMiddleware` of service/service.go.
use dp_topic_api.Prelude.{String, ◌&&◌, ◌==◌, if◌then◌else◌}
use dp_topic_api.Api.Routes.{Handler}
use dp_topic_api.Config.{Config}
use dp_topic_api.Service.Outside.{Outside, HealthCheck}

module _ {S : Type 0} where
  abbrev pub healthcheck_middleware : Handler S → String → Handler S → Handler S
  healthcheck_middleware healthcheck_handler path h req =
      if req.method == "GET" && req.path == path then healthcheck_handler req else h req

module _ {S C : Type 0} (outside : Outside S C) where
  -- `identity_client` is the URL of the service's identity client.
  unfoldable pub create_middleware : Config → HealthCheck → String → C
  create_middleware config health_check identity_client =
      let chain =
        outside.new_chain
          (healthcheck_middleware (outside.health_handler health_check) "/health") in
      if config.enable_private_endpoints
      then outside.append_chain chain (outside.identity identity_client)
      else chain
