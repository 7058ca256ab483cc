-- ===== src/Service/Close/Calls.antt =====
-- The calls that `Service.Close` makes, in order, and what its result tells of them.
use dp_topic_api.Prelude.{
  Bool, true, false, ◌≡◌, ◌||◌, Option, none, some, List, [], ◌∷◌, ◌++◌, if◌then◌else◌,
}
use dp_topic_api.Errors.{GoError}
use dp_topic_api.Service.{ServiceList}
use dp_topic_api.Service.Close.{
  Closer, stopping_health, shutting_server, closing_mongo, Fault, timed_out, ungraceful, Call,
  health_stopped, server_shutdown, mongo_closed, failed,
}

module _ (list : ServiceList) where
  abbrev pub health_calls : List Call
  health_calls = if list.health_check then health_stopped ∷ [] else []

  abbrev pub server_calls : GoError → List Call
  server_calls e = health_calls ++ server_shutdown e ∷ []

  -- All the calls, where the server's shutdown gives `e` and the database's close gives `f`.
  abbrev pub all_calls : GoError → GoError → List Call
  all_calls e f = server_calls e ++ (if list.mongo_db then mongo_closed f ∷ [] else [])

  -- The calls before a statement of the goroutine.
  abbrev pub calls_upto : GoError → GoError → Closer → List Call
  calls_upto e f stopping_health = []
  calls_upto e f shutting_server = health_calls
  calls_upto e f closing_mongo = server_calls e
  calls_upto e f _ = all_calls e f

  abbrev pub faulty : GoError → GoError → Bool
  faulty e f = failed e || (if list.mongo_db then failed f else false)

  abbrev pub faulty_upto : GoError → GoError → Closer → Bool
  faulty_upto e f stopping_health = false
  faulty_upto e f shutting_server = false
  faulty_upto e f closing_mongo = failed e
  faulty_upto e f _ = faulty e f

  -- What a result of `Close` tells of the calls.
  pub data Closes (calls : List Call) : Option Fault → Type 0 where
    -- every service was stopped, in order and without an error
    gracefully : calls ≡ all_calls none none → Closes calls none
    -- every service was stopped in order, and the server or the database gave an error
    with_errors :
        (e f : GoError) → calls ≡ all_calls e f → faulty e f ≡ true → Closes calls (some ungraceful)
    -- the services were stopped in order up to some statement
    too_late :
        (e f : GoError) (at : Closer) → calls ≡ calls_upto e f at → Closes calls (some timed_out)
