-- ===== src/Service/Start/Outcomes.antt =====
-- How `Service.Run` ends.
use dp_topic_api.Prelude.{
  String, Bool, true, false, ◌≡◌, refl, ap, ◌&&◌, ◌||◌, none, some, List, [], ◌∷◌, ◌++◌, All,
  Option-cases, Bool-cases, inl, inr, arith,
}
use dp_topic_api.Errors.{Error}
use dp_topic_api.Config.{Config}
use dp_topic_api.Service.{ServiceList}
use dp_topic_api.Service.Outside.{Outside, Mongo, HealthCheck}
use dp_topic_api.Service.Start.{
  Event, check_added, health_started, listening, mongo_failed, health_check_failed, checkers_failed,
  Ran, new_service_list, new, has_error, new_db_connection, do_get_health_check, register_checkers,
  endpoints, make_server, run, get_mongo_db, get_health_check,
}

-- Nothing runs: there is no server, and only checks were added.
abbrev is_check : Event → Bool
is_check (check_added name) = true
is_check _ = false

abbrev pub IsIdle : {S : Type 0} → Ran S → Type 0
IsIdle ran =
    (ran.service.server ≡ none)
    × (ran.service.api ≡ none)
    × All (λ event. is_check event ≡ true) ran.events

-- The checks that are added.
abbrev pub checks : Bool → List Event
checks true = check_added "Zebedee" ∷ check_added "Mongo DB" ∷ []
checks false = check_added "Mongo DB" ∷ []

checks-are_checks : (private : Bool) → All (λ event. is_check event ≡ true) (checks private)
checks-are_checks true = (refl, (refl, tt))
checks-are_checks false = (refl, tt)

abbrev pub with_flags : Bool → Bool → ServiceList
with_flags mongo_db health_check = record { health_check = health_check; mongo_db = mongo_db }

module _ {S C : Type 0} (outside : Outside S C) (config : Config) where
  -- The connection and the health check, where they can be made.
  abbrev pub mongo_of : Mongo
  mongo_of = record {
    config = config.mongo_config;
    health_client =
        (
          config.mongo_config.database,
          outside.actual_collection_name config.mongo_config "TopicsCollection"
              ∷ outside.actual_collection_name config.mongo_config "ContentCollection"
              ∷ [],
        )
        ∷ [];
  }

  abbrev pub unchecked : Bool
  unchecked =
      (config.enable_private_endpoints && has_error (outside.add_check "Zebedee"))
      || has_error (outside.add_check "Mongo DB")

  abbrev pub health_check_of : String → String → String → HealthCheck
  health_check_of build_time git_commit version = record {
    build_time = build_time;
    git_commit = git_commit;
    version = version;
    critical_timeout = config.health_check_critical_timeout;
    interval = config.health_check_interval;
  }

  pub data Starts (build_time git_commit version : String) (ran : Ran S) : Type 0 where
    without_mongo :
        (e : Error)
        → outside.open_mongo config.mongo_config ≡ some e
        → ran.error ≡ some (mongo_failed e)
        → ran.service.service_list ≡ with_flags false false
        → IsIdle ran
        → Starts build_time git_commit version ran
    without_health_check :
        (e : Error)
        → outside.open_mongo config.mongo_config ≡ none
        → outside.new_version_info build_time git_commit version ≡ some e
        → ran.error ≡ some (health_check_failed e)
        → ran.service.service_list ≡ with_flags true false
        → IsIdle ran
        → Starts build_time git_commit version ran
    without_checks :
        outside.open_mongo config.mongo_config ≡ none
        → outside.new_version_info build_time git_commit version ≡ none
        → unchecked ≡ true
        → ran.error ≡ some checkers_failed
        → ran.service.service_list ≡ with_flags true true
        → IsIdle ran
        → Starts build_time git_commit version ran
    serving :
        outside.open_mongo config.mongo_config ≡ none
        → outside.new_version_info build_time git_commit version ≡ none
        → unchecked ≡ false
        → ran.error ≡ none
        → ran.service.service_list ≡ with_flags true true
        → ran.service.server
          ≡ some (
              make_server outside config
                (health_check_of build_time git_commit version)
                config.zebedee_url)
        → ran.service.api ≡ some (endpoints outside config mongo_of)
        → ran.events
          ≡ checks config.enable_private_endpoints
            ++ health_started ∷ listening config.bind_addr ∷ []
        → Starts build_time git_commit version ran

  register_checkers_lem :
      register_checkers outside config ≡ (checks config.enable_private_endpoints, unchecked)
  unfolding register_checkers
  register_checkers_lem = ground arith

  register_checkers-checks :
      All (λ event. is_check event ≡ true) (register_checkers outside config).0
  register_checkers-checks =
      rw register_checkers_lem (checks-are_checks config.enable_private_endpoints)

  -- `Run` of a new service: where the database cannot be opened, the health check not made or a check
  -- not added, it returns the error of the first of these, no server is made and nothing is
  -- started; else it adds the checks, starts the health check and listens, in this order, with the
  -- endpoints of the configuration. The flags tell which of the database and the health check were
  -- made.
  pub run-Starts :
      (build_time git_commit version : String)
      → Starts build_time git_commit version
          (run outside (new config new_service_list) build_time git_commit version)
  unfolding run get_health_check get_mongo_db new_db_connection do_get_health_check
  run-Starts build_time git_commit version =
      elim (Option-cases (outside.open_mongo config.mongo_config)) [
        | inr (e, h) ↦ without_mongo e h (rw h refl) (rw h refl) (rw h (refl, refl, tt))
        | inl h ↦ elim (Option-cases (outside.new_version_info build_time git_commit version)) [
          | inr (e, k) ↦
              without_health_check e h k (rw (h, k) refl) (rw (h, k) refl)
                (rw (h, k) (refl, refl, tt))
          | inl k ↦ elim (Bool-cases unchecked) [
            | inl u ↦
                without_checks h k u (rw (h, k, register_checkers_lem, u) refl)
                  (rw (h, k, register_checkers_lem, u) refl)
                  (rw (h, k, register_checkers_lem, u) (refl, refl, register_checkers-checks))
            | inr u ↦
                serving h k u (rw (h, k, register_checkers_lem, u) refl)
                  (rw (h, k, register_checkers_lem, u) refl)
                  (rw (h, k, register_checkers_lem, u) refl)
                  (rw (h, k, register_checkers_lem, u) refl)
                  (rw (h, k, register_checkers_lem, u)
                    (ap
                      (λ (p : List Event × Bool).
                        p.0 ++ health_started ∷ listening config.bind_addr ∷ [])
                      register_checkers_lem))
          ]
        ]
      ]
