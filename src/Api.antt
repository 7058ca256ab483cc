-- ===== src/Api.antt =====
-- The package `api`: the handlers over a `Storer`, and the routes.
pub mod Query
pub mod Action
pub mod Respond
pub mod Env
pub mod Concurrent
pub mod View
pub mod Private
pub mod Public
pub mod Content
pub mod Navigation
pub mod Outcome
pub mod Routes
