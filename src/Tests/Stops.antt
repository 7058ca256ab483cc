-- ===== src/Tests/Stops.antt =====
-- The start and the stop of the service, at libraries that do as little as they can.
use dp_topic_api.Prelude.{
  ◌≡◌, refl, true, false, none, some, List, [], ◌∷◌, ◌||◌, ◌≤◌, ◌⊎◌, inl, inr, Memᴰ, arith, ◌==◌,
  if◌then◌else◌, eq_iff, String-cases,
}
use dp_topic_api.Errors.{GoError, other}
use dp_topic_api.Http.{Request, write_header}
use dp_topic_api.Config.{Config, default_config, get, cell_after}
use dp_topic_api.Config.Cached.{get_again}
use dp_topic_api.Api.Action.{respond}
use dp_topic_api.Api.Action.Rules.{KeepsStore, KeepsStore-respond}
use dp_topic_api.Api.Routes.{Handler, Route}
use dp_topic_api.Service.{ServiceList}
use dp_topic_api.Service.Close.{
  health_stopped, server_shutdown, mongo_closed, background, start, Closing, Run, begin, then_step,
  closer_moves, parent_ends, cancellable, Context, waiter_wakes, waiter_returns, advance, outcome,
  ended, cancelled, failed, ungraceful, returned,
}
use dp_topic_api.Service.Close.Calls.{Closes}
use dp_topic_api.Service.Close.Order.{close-Closes}
use dp_topic_api.Service.Close.Progress.{Returns, close-Ends}
use dp_topic_api.Service.Outside.{Outside}
use dp_topic_api.Service.Start.{
  run, get_mongo_db, get_health_check, register_checkers, new_db_connection, do_get_health_check,
  new, new_service_list, make_server, endpoints,
}
use dp_topic_api.Service.Start.Outcomes.{Starts, run-Starts, with_flags, mongo_of, health_check_of}
use dp_topic_api.Service.Start.Serves.{ServesLaws, run-KeepsStore}
use dp_topic_api.Main.{Exits, closed}
use dp_topic_api.Main.Exit.{main-exit_code}
use dp_topic_api.Tests.Fixtures.{Documents, storer, env, auth, auth_laws, request}

abbrev both : ServiceList
both = with_flags true true

-- `Close` after the goroutine has run to its end, where the server's shutdown gives `e`, and the
-- caller has returned.
abbrev shut : GoError → Closing
unfolding outcome
shut e = record {
  closer = ended;
  context = cancelled;
  waiter = returned (outcome cancelled ((false || failed e) || false));
  has_shutdown_error = (false || failed e) || false;
  calls = health_stopped ∷ server_shutdown e ∷ mongo_closed none ∷ [];
}

shut-Run : (e : GoError) → Run both background 6 (shut e)
unfolding advance outcome shut
shut-Run e =
    let stopped = then_step begin (closer_moves {c = start} none (ground arith)) in
    let served = then_step stopped (closer_moves e (ground arith)) in
    let unlinked = then_step served (closer_moves none (ground arith)) in
    let done = then_step unlinked (closer_moves none (ground arith)) in
    then_step (then_step done (waiter_wakes refl (ground arith))) (waiter_returns refl)

abbrev busy : GoError
busy = some (other "busy")

close-Closes_example :
    Closes both (health_stopped ∷ server_shutdown busy ∷ mongo_closed none ∷ []) (some ungraceful)
unfolding shut outcome
close-Closes_example = close-Closes both (shut-Run busy) refl

close-Ends_example : (6 ≤ 7) × Returns both background (shut none)
close-Ends_example = close-Ends both background (shut-Run none)

-- An environment that cannot be read.
abbrev unreadable : Config → Config × GoError
unreadable config = (record config { bind_addr = "" }, some (other "envconfig"))

get_again_example :
    get unreadable (cell_after unreadable 2 (some (record default_config { bind_addr = "" })))
    ≡ record {
      config = record default_config { bind_addr = "" };
      error = none;
      cell = some (record default_config { bind_addr = "" });
    }
unfolding get
get_again_example = get_again unreadable none 2

abbrev Wrap : Type 0
Wrap = Handler Documents → Handler Documents

abbrev no_page : Handler Documents
no_page req = respond (write_header 404)

-- The first endpoint of the request's method.
abbrev dispatch : List (Route Documents) → Handler Documents
dispatch [] req = no_page req
dispatch (route ∷ routes) req =
    let rest = dispatch routes req in if route.method == req.method then route.handler req else rest

abbrev outside : Outside Documents Wrap
outside = record {
  open_mongo = λ config. none;
  actual_collection_name = λ config name. name;
  new_version_info = λ build_time git_commit version. none;
  add_check = λ name. none;
  health_handler = λ health_check req. respond (write_header 200);
  new_chain = λ wrap. wrap;
  append_chain = λ chain wrap handler. chain (wrap handler);
  chain_then = λ chain. chain;
  identity = λ url handler. handler;
  check_identity = auth.check_identity;
  nop_require = λ required handler. handler;
  permissions_require = λ url. auth.require;
  dispatch = dispatch;
  storer = λ mongo. storer;
  libraries = env;
  print_seconds = λ d. "1800";
}

-- A service for publishing, with the check of permissions.
abbrev publishing : Config
publishing = record default_config {
  enable_permissions_auth = true;
  enable_private_endpoints = true;
}

dispatch_lem :
    (routes : List (Route Documents)) (req : Request)
    → ((route : Route Documents) × (matched : Request) × Memᴰ route routes
        × (route.method ≡ req.method)
        × (dispatch routes req ≡ route.handler matched))
      ⊎ KeepsStore (dispatch routes req)
dispatch_lem [] req = inr (KeepsStore-respond (write_header 404))
dispatch_lem (route ∷ routes) req = elim (String-cases route.method req.method) [
  | inl e ↦ inl (route, req, Memᴰ.head refl, e, rw ((eq_iff route.method req.method).1 e) refl)
  | inr ne ↦ elim (dispatch_lem routes req) [
    | inl (found, matched, m, e, h) ↦ inl (found, matched, Memᴰ.tail m, e, rw ne h)
    | inr k ↦ inr (rw ne k)
  ]
]

laws : ServesLaws outside publishing
laws = record {
  chains = record { then_new = λ m h. refl; then_append = λ chain m h. refl };
  checks = auth_laws;
  dispatches = dispatch_lem;
  identifies = λ url h req. inl (req, refl, refl);
  health_keeps = λ health_check req. KeepsStore-respond (write_header 200);
}

run-Starts_example :
    Starts outside publishing "1601119818" "6584b78" "v0.1.0"
      (run outside (new publishing new_service_list) "1601119818" "6584b78" "v0.1.0")
run-Starts_example = run-Starts outside publishing "1601119818" "6584b78" "v0.1.0"

run-KeepsStore_example : KeepsStore (
    (make_server outside publishing
        (health_check_of outside publishing "1601119818" "6584b78" "v0.1.0")
        publishing.zebedee_url).handler
      (endpoints outside publishing (mongo_of outside publishing))
      (request [] [] ""))
unfolding run
run-KeepsStore_example =
    run-KeepsStore outside publishing laws "1601119818" "6584b78" "v0.1.0"
      (make_server outside publishing
        (health_check_of outside publishing "1601119818" "6584b78" "v0.1.0") publishing.zebedee_url)
      (endpoints outside publishing (mongo_of outside publishing)) (request [] [] "") refl refl
      (inr refl)

abbrev process : Config → Config × GoError
process config = (config, none)

main_run : Exits process outside "1601119818" "6584b78" "v0.1.0" 0 (shut none).calls
unfolding get run get_mongo_db get_health_check register_checkers new_db_connection
    do_get_health_check shut outcome
main_run = closed 6 (shut none) none refl refl (shut-Run none) refl

main-exit_code_example :
    (shut none).calls ≡ health_stopped ∷ server_shutdown none ∷ mongo_closed none ∷ []
main-exit_code_example = main-exit_code process outside "1601119818" "6584b78" "v0.1.0" main_run

-- Where the context that `Close` was given is cancelled at once, it returns nil with nothing stopped.
cancelled_first :
    Run both cancellable 3 (record start { context = Context.cancelled; waiter = returned none })
unfolding outcome
cancelled_first =
    then_step
      (then_step (then_step begin (parent_ends {c = start} refl refl))
        (waiter_wakes refl (ground arith)))
      (waiter_returns refl)
