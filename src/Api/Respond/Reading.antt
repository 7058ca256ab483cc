-- ===== src/Api/Respond/Reading.antt =====
-- `ReadJSONBody` of api/api.go. It has no caller in the service. A body that cannot be read and a text
-- that cannot be decoded are both errors that the caller gets as they are.
use dp_topic_api.Prelude.{String, ◌≡◌, inl, inr, some}
use dp_topic_api.Errors.{
  Error, Result, ok, err, Result-cases, unable_to_read_message, unable_to_parse_json,
}
use dp_topic_api.Http.{set_header, set_on}
use dp_topic_api.Api.Action.{Action, Conn, Run, done, respond, pure, ◌>>◌}
use dp_topic_api.Api.Outcome.{IsFresh}
use dp_topic_api.Api.Respond.{handle_error}
use dp_topic_api.Api.Respond.Statuses.{failed, handle_error_lem}

-- The connection with the header of the response set.
abbrev pub announced : {S : Type 0} → Conn S → Conn S
announced c = record c {
  writer = record c.writer {
    header = set_header "Content-Type" "application/json; charset=utf-8" c.writer.header;
  };
}

module _ {S A : Type 0} where
  -- `json.Unmarshal` of the text that was read.
  abbrev decode_read : Result A → Action S (Result A)
  decode_read (err e) = do handle_error (some unable_to_parse_json); pure (err e)
  decode_read (ok a) = pure (ok a)

  abbrev decode_body : (String → Result A) → Result String → Action S (Result A)
  decode_body decode (err e) = do handle_error (some unable_to_read_message); pure (err e)
  decode_body decode (ok text) = decode_read (decode text)

  unfoldable pub read_json_body : (String → Result A) → Result String → Action S (Result A)
  unfolding set_on
  read_json_body decode body = do
    respond (λ w. some (set_on "Content-Type" "application/json; charset=utf-8" w))
    decode_body decode body

  pub data ReadsBody (decode : String → Result A) (c : Conn S)
      : Result String → Run S (Result A) → Type 0 where
    unreadable :
        {e : Error}
        → ReadsBody decode c (err e) (done (err e) (failed unable_to_read_message (announced c)))
    undecodable :
        {text : String} {e : Error}
        → decode text ≡ err e
        → ReadsBody decode c (ok text) (done (err e) (failed unable_to_parse_json (announced c)))
    read :
        {text : String} {a : A}
        → decode text ≡ ok a
        → ReadsBody decode c (ok text) (done (ok a) (announced c))

  -- On a connection where nothing was sent yet, a body that cannot be read is answered as an error
  -- in reading, a text that cannot be decoded as an error in parsing, and else the decoded value is
  -- returned with nothing sent.
  pub read_json_body-ReadsBody :
      (decode : String → Result A) (body : Result String) (c : Conn S)
      → IsFresh c
      → ReadsBody decode c body (read_json_body decode body c)
  unfolding read_json_body
  read_json_body-ReadsBody decode (err e) c fresh =
      rw (handle_error_lem (announced c) fresh unable_to_read_message) ReadsBody.unreadable
  read_json_body-ReadsBody decode (ok text) c fresh = elim (Result-cases (decode text)) [
    | inl (a, h) ↦ rw h (ReadsBody.read h)
    | inr (e, h) ↦
        rw (h, handle_error_lem (announced c) fresh unable_to_parse_json) (ReadsBody.undecodable h)
  ]
