-- ===== src/Api/Respond/Statuses.antt =====
-- What `handleError` and `WriteJSONBody` of api/api.go send.
use dp_topic_api.Prelude.{
  ℕ, ◌≤◌, String, ◌≡◌, inl, inr, Bool, none, some, List, [], ◌∷◌, ◌++◌, arith, false, true,
}
use dp_topic_api.Prelude.Text.{concat}
use dp_topic_api.Errors.{Error, Result, ok, err, internal_server, topic_not_found, Result-cases}
use dp_topic_api.Http.{ResponseWriter, set_header, write_header, http_error}
use dp_topic_api.Api.Action.{Conn, done, respond}
use dp_topic_api.Api.Outcome.{IsFresh}
use dp_topic_api.Api.Respond.{Value, error_status, error_text, handle_error, finish}

-- What reaches the client: nothing past the status where the writer is broken.
abbrev pub delivered : Bool → List String → String → List String
delivered true body text = body
delivered false body text = body ++ text ∷ []

-- The writer after `http.Error` on a fresh one.
abbrev errored : ResponseWriter → ℕ → String → ResponseWriter
errored w code text =
    let header =
      set_header "X-Content-Type-Options" "nosniff"
        (set_header "Content-Type" "text/plain; charset=utf-8" w.header) in
    record w {
      header = header;
      sent = some (record { status = code; header = header });
      body = delivered w.broken w.body (concat text "\n");
    }

http_error-errored :
    (w : ResponseWriter) (text : String) (code : ℕ)
    → w.sent ≡ none
    → 200 ≤ code
    → code ≤ 999
    → http_error text code w ≡ some (errored w code text)
unfolding http_error
http_error-errored w text code fresh low high = ground arith

error_status_range : (e : Error) → (200 ≤ error_status (some e)) × (error_status (some e) ≤ 999)
unfolding error_status
error_status_range topic_not_found = omega arith
error_status_range _ = omega arith

-- The connection after `handleError`, and after a value was written.
abbrev pub failed : {S : Type 0} → Error → Conn S → Conn S
failed e c = record c { writer = errored c.writer (error_status (some e)) (error_text (some e)) }

abbrev json : ResponseWriter → ResponseWriter
json w = record w { header = set_header "Content-Type" "application/json; charset=utf-8" w.header }

abbrev sent_with : ResponseWriter → String → ResponseWriter
sent_with w payload = record w {
  sent = some (record { status = 200; header = w.header });
  body = delivered w.broken w.body payload;
}

abbrev rendered : Result String → ResponseWriter → ResponseWriter
rendered (ok payload) w = sent_with (json w) payload
rendered (err e) w = errored (json w) 500 "internal error"

abbrev pub finished : {S : Type 0} → Result String → Conn S → Conn S
finished r c = record c { writer = rendered r c.writer }

-- The connection after `w.WriteHeader(http.StatusOK)` alone.
abbrev pub accepted : {S : Type 0} → Conn S → Conn S
accepted c = record c {
  writer = record c.writer { sent = some (record { status = 200; header = c.writer.header }) };
}

module _ {S : Type 0} (c : Conn S) (fresh : IsFresh c) where
  pub handle_error_lem : (e : Error) → handle_error (some e) c ≡ done tt (failed e c)
  unfolding handle_error
  handle_error_lem e =
      let (low, high) = error_status_range e in
      rw (http_error-errored c.writer (error_text (some e)) (error_status (some e)) fresh low high)

  pub accepted_lem : respond (write_header 200) c ≡ done tt (accepted c)
  unfolding write_header
  accepted_lem = ground arith

module _ {S : Type 0} (marshal : Value → Result String) (value : Value) (c : Conn S) where
  finish_ok :
      (payload : String)
      → IsFresh c
      → marshal value ≡ ok payload
      → finish marshal value c ≡ done tt (finished (ok payload) c)
  unfolding finish
  finish_ok payload fresh h = ground arith

  finish_err :
      (e : Error)
      → IsFresh c
      → marshal value ≡ err e
      → finish marshal value c ≡ done tt (finished (err e) c)
  unfolding finish error_status error_text
  finish_err e fresh h =
      ground (arith, handle_error_lem (record c { writer = json c.writer }) fresh internal_server)

  pub finish_lem : IsFresh c → finish marshal value c ≡ done tt (finished (marshal value) c)
  finish_lem fresh = elim (Result-cases (marshal value)) [
    | inl (payload, h) ↦ rw h (finish_ok payload fresh h)
    | inr (e, h) ↦ rw h (finish_err e fresh h)
  ]
