-- ===== src/Errors.antt =====
-- apierrors/errors.go: the service's errors. Go compares them by identity, so each is a constructor
-- of its own; `other` is any further error, such as the database driver's.
use dp_topic_api.Prelude.{String, ◌≡◌, refl, ◌⊎◌, inl, inr, Option}

pub data Error : Type 0 where
  content_not_found content_unrecognised_parameter empty_request_body internal_server : Error
  invalid_release_date not_found topic_missing_fields topic_invalid_state topic_not_found : Error
  topic_state_transition_not_allowed topic_upload_empty unable_to_parse_json : Error
  unable_to_read_message : Error
  other : String → Error

-- `err.Error()`
unfoldable pub message : Error → String
message content_not_found = "content not found"
message content_unrecognised_parameter = "content query not recognised"
message empty_request_body = "request body empty"
message internal_server = "internal error"
message invalid_release_date =
    "invalid topic release date, must have the following format: 2022-05-22T09:21:45Z"
message not_found = "not found"
message topic_missing_fields = "missing topic update mandatory fields"
message topic_invalid_state = "topic state is not a valid state name"
message topic_not_found = "topic not found"
message topic_state_transition_not_allowed = "topic state transition not allowed"
message topic_upload_empty = "topic upload section is not populated"
message unable_to_parse_json = "failed to parse json body"
message unable_to_read_message = "failed to read message body"
message (other text) = text

-- Go's `(value, error)` where the value is dropped on an error.
pub data Result {ℓ} (A : Type ℓ) : Type ℓ where
  ok : A → Result A
  err : Error → Result A

-- Go's `error`: `none` is nil.
abbrev pub GoError : Type 0
GoError = Option Error

pub Result-cases {ℓ} :
    {A : Type ℓ} (r : Result A) → ((a : A) × (r ≡ ok a)) ⊎ ((e : Error) × (r ≡ err e))
Result-cases (ok a) = inl (a, refl)
Result-cases (err e) = inr (e, refl)
