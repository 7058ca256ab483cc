-- ===== src/Lib.antt =====
-- The topic API: an HTTP service that keeps topics, their content and the site navigation.
--
-- Parts, and the file or folder that models each:
--   models/state.go          Models/State.antt: the states, their names, the transition table
--   models/topic.go          Models/Topic.antt: topics, updates, releases and their checks
--   models/content.go        Models/Content.antt: content and the list that AppendLinkInfo builds
--   models/navigation.go     Models/Navigation.antt
--   apierrors/errors.go      Errors.antt
--   store/datastore.go       Store.antt: the interface Storer, over an abstract state of the database
--   api/api.go               Api/Respond.antt (WriteJSONBody, ReadJSONBody, handleError),
--                            Api/Routes.antt (Setup, the endpoints and the checks in front of them)
--   api/topic_private.go     Api/Private.antt; Api/Concurrent.antt for requests that are served at once
--   api/topic_public.go      Api/Public.antt
--   api/content.go           Api/Content.antt
--   api/content_query.go     Api/Query.antt, with the words of a request in Api/Query/Requested.antt
--   api/navigation.go        Api/Navigation.antt, with one file for each part of the tree
--   mongo/topic_store.go     Mongo.antt: the store's operations, an instance of Storer
--   broken/brokenrecorder.go Broken.antt: the recorder of the handlers' tests
--   config/config.go         Config.antt
--   service/service.go       Service/Start.antt (New, Run), Service/Middleware.antt, Service/Close.antt
--   service/initialise.go    Service.antt and Service/Start.antt
--   main.go                  Main.antt
--   scripts/updatetopicrelease/main.go
--                            Script.antt
--   sdk/errors/errors.go     Sdk/Failure.antt
--   sdk/options.go           Sdk/Options.antt, with sdk/headers.go
--   sdk/client.go            Sdk/Call.antt (callTopicAPI), Sdk/Client.antt (the calls of the client)
--   sdk/client_private.go    Sdk/Client.antt
-- Functions keep the source's names in snake case; a method is a function of its receiver.
--
-- How they interact. A handler is an action (Api/Action.antt): it reads and writes the state behind
-- Storer and the response writer (Http.antt), and ends or panics. A panic is a dereference of nil or a
-- status outside 100..999; net/http recovers it, and what was done before stays done. A writer sends
-- its status once: a later WriteHeader is superfluous, and a write with no status sends 200. A status of
-- 100..199 other than 101 is informational, and leaves the status unsent. A
-- handler's nested helper functions are its source's code after an early return, or one loop. Setup
-- gives the endpoints of one configuration; the endpoints for publishing stand behind the check of the
-- caller's identity and of its permissions.
--
-- Requests that change topics can be served at once. Api/Concurrent.antt cuts each such handler into its
-- calls of the store, so that a run is a list of arrivals and of turns in any order; each call is atomic,
-- as an operation of the database on one document is. Api/Concurrent/Alone.antt compares the pieces with
-- the handlers. Mongo/Origins.antt, Mongo/Frame.antt and Mongo/Isolation.antt follow the documents
-- through a run over mongo/topic_store.go, and Mongo/Again.antt publishes a topic twice.
--
-- The process (Main.antt) reads its configuration, runs the service and closes it. Run is a function: it
-- returns the service, what it set going, and its error. The server's handler is a function of the
-- endpoints, since Setup registers them on the router after the server was made. Close is a step
-- relation: its goroutine, the timer, the context that it was given and the caller that waits take turns
-- in any order, and what the services return is arbitrary. The client's calls (Sdk/Client.antt) go over a
-- network that is a parameter; Sdk/Endpoints.antt and Sdk/Exchange.antt join the two sides by the
-- endpoints' paths (Sdk/Paths.antt).
--
-- Values. A nil pointer is `none`, and a pointer to a slice an Option of a list. Integers of the source
-- that can be negative are in ℤ (State); counts and flags are small and in ℕ. Go compares errors by
-- identity, so each error is a constructor. Loops are structural recursion, so no fuel is needed.
--
-- Outside the repository, and so parameters: the database driver (the record Driver in Mongo.antt, with
-- DriverLaws for what publishing relies on, ContentLaws for what a projection fetches, and WriteLaws and
-- FrameLaws for what its writes leave alone; any call may fail, a write that reports an error may have
-- been applied all the same, and times are kept in milliseconds), the clock (an argument of the store),
-- encoding/json, time.Parse and unicode.ToLower (the fields of Env in Api/Env.antt), the identity and
-- the permission checks (the record Auth, with AuthLaws for what they document), and for the start of the
-- service the connection, the health check, the middleware and the router (the record Outside in
-- Service/Outside.antt, with ServesLaws for what they document). envconfig is a function on the
-- configuration. For the client they are url.Parse, http.NewRequest and the HTTP client (the record
-- Transport in Sdk/Call.antt), encoding/json (Decoders, with Codec for what is relied on), and the network
-- with the router behind it (the record Link in Sdk/Exchange.antt: a request reaches the endpoint of its path
-- or does not, any number of times since the client may try again, its response may be lost, and reading
-- the body may break off). An endpoint by itself takes any request. Logging is left out, as it changes neither the store nor the reply.
--
-- Not modelled: closing and checking the connection to the database, which the driver does alone; the
-- wait for a signal or a server's error in main.go, which only delays Close; the constructors of the
-- client, which wrap a client of dp-api-clients-go; post and delete of api/api.go, which have no caller;
-- the component tests under features, the scripts for the database shell, and the generated mocks.
--
-- Tests.antt and the files under Tests/ hold a store in memory and runs of the theorems.
pub mod Prelude
pub mod Errors
pub mod Models
pub mod Http
pub mod Store
pub mod Api
pub mod Tests
pub mod Mongo
pub mod Sdk
pub mod Service
pub mod Broken
pub mod Config
pub mod Main
pub mod Script
