-- ===== src/Api/Outcome.antt =====
-- What a client and the store can tell of a handler's run.
use dp_topic_api.Prelude.{ℕ, String, ◌≡◌, ◌≢◌, Option, none, some, List}
use dp_topic_api.Http.{Sent}
use dp_topic_api.Api.Action.{Conn, Run, done, panicked}

module _ {S A : Type 0} where
  abbrev pub final : Run S A → Conn S
  final (done _ c) = c
  final (panicked c) = c

  abbrev pub store_after : Run S A → S
  store_after r = (final r).store

  abbrev pub IsPanic : Run S A → Type 0
  IsPanic (done _ _) = ⊥
  IsPanic (panicked _) = Unit

abbrev pub status_sent : Option Sent → Option ℕ
status_sent none = none
status_sent (some sent) = some sent.status

-- The status of the response, `none` if none went out.
abbrev pub status_after : {S A : Type 0} → Run S A → Option ℕ
status_after r = status_sent (final r).writer.sent

abbrev pub body_after : {S A : Type 0} → Run S A → List String
body_after r = (final r).writer.body

-- A connection on which nothing was sent.
abbrev pub IsFresh : {S : Type 0} → Conn S → Type 0
IsFresh c = c.writer.sent ≡ none

-- The run panicked, or it sent a response.
abbrev pub IsAnswered : {S A : Type 0} → Run S A → Type 0
IsAnswered (done _ c) = c.writer.sent ≢ none
IsAnswered (panicked _) = Unit

abbrev pub IsDone : {S A : Type 0} → Run S A → Type 0
IsDone (done _ _) = Unit
IsDone (panicked _) = ⊥
