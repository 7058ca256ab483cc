-- ===== src/Tests.antt =====
-- The theorems at concrete inputs: a store in memory stands for the database.
mod Fixtures
mod Handlers
mod Listings
mod Documents
mod Contents
mod Database
mod Stops
mod Json
mod Network
mod Website
mod Publishing
mod Editable
mod Concurrent
mod Recorder
mod Exchange
mod Scripts
