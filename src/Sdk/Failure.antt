-- ===== src/Sdk/Failure.antt =====
-- sdk/errors/errors.go: an error with an HTTP status, and how it is found inside another error. `E` is
-- the type of the errors that are inside, and `text` gives their `Error()`.
use dp_topic_api.Prelude.{ℕ, String, Option, none, some, ◌==◌, if◌then◌else◌}

pub record StatusError (E : Type 0) : Type 0 where
  pub code : ℕ
  pub inner : Option E

-- A chain of errors as `errors.As` walks it: a `StatusError`, an error with no other inside, or one
-- that wraps another; the texts are those of `Error()`.
pub data Chain (E : Type 0) : Type 0 where
  status_error : StatusError E → Chain E
  plain : String → Chain E
  wrapping : String → Chain E → Chain E

module _ {E : Type 0} (text : E → String) where
  abbrev inner_text : Option E → String
  inner_text none = "nil"
  inner_text (some e) = text e

  -- `StatusError.Error`
  unfoldable pub status_error_text : StatusError E → String
  status_error_text e = inner_text e.inner

  -- `err.Error()`
  unfoldable pub chain_text : Chain E → String
  unfolding status_error_text
  chain_text (status_error e) = status_error_text e
  chain_text (plain s) = s
  chain_text (wrapping s e) = s

  -- `errors.As(err, &rerr)`
  unfoldable pub find_error : Chain E → Option (StatusError E)
  find_error (status_error e) = some e
  find_error (plain s) = none
  find_error (wrapping s e) = find_error e

  abbrev code_of : Option (StatusError E) → ℕ
  code_of none = 0
  code_of (some e) = e.code

  -- `ErrorStatus`, of an error that is not nil.
  unfoldable pub error_status_of : Chain E → ℕ
  unfolding find_error
  error_status_of e = code_of (find_error e)

  abbrev message_or : String → Option (StatusError E) → String
  unfolding status_error_text
  message_or other none = other
  message_or other (some e) = if status_error_text e == "" then other else status_error_text e

  -- `ErrorMessage`, of an error that is not nil.
  unfoldable pub error_message_of : Chain E → String
  unfolding find_error chain_text status_error_text
  error_message_of e = message_or (chain_text e) (find_error e)
