-- ===== src/Models.antt =====
-- The package `models`: the documents, their states and the checks on them.
pub mod State
pub mod Topic
pub mod Content
pub mod Navigation
