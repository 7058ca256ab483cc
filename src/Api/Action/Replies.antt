-- ===== src/Api/Action/Replies.antt =====
-- The actions that send a response, with one rule for each way to build one.
use dp_topic_api.Prelude.{
  ℕ, ◌≤◌, Option-cases, String, ◌≡◌, ◌≢◌, Bool, true, false, Option, none, some, arith,
  if◌then◌else◌, inl, inr,
}
use dp_topic_api.Errors.{Error, GoError, Result, ok, err, internal_server}
use dp_topic_api.Http.{ResponseWriter, write_header, http_error, write, set_on}
use dp_topic_api.Api.Action.{Conn, Run, done, panicked, Action, pure, respond, continue, ◌>>=◌}
use dp_topic_api.Api.Outcome.{IsAnswered}
use dp_topic_api.Api.Respond.{
  Value, handle_error, write_payload, write_marshalled, write_json_body, finish, or_handle,
  unless_error, error_status, error_text,
}

pub record SendsResponse {S A : Type 0} (m : Action S A) : Type 0 where
  pub at : (c : Conn S) → IsAnswered (m c)

continue-answers :
    {S A B : Type 0} (r : Run S A) (f : A → Action S B)
    → ((a : A) → SendsResponse (f a))
    → IsAnswered (continue r f)
continue-answers (done a c) f k = (k a).at c
continue-answers (panicked c) f k = tt

module _ {S A : Type 0} where
  pub SendsResponse-if :
      (b : Bool) (m n : Action S A)
      → SendsResponse m
      → SendsResponse n
      → SendsResponse (if b then m else n)
  SendsResponse-if true m n k l = k
  SendsResponse-if false m n k l = l

module _ {S A B : Type 0} where
  pub SendsResponse-bind :
      (m : Action S A) (f : A → Action S B)
      → ((a : A) → SendsResponse (f a))
      → SendsResponse (m >>= f)
  SendsResponse-bind m f l = record { at = λ c. continue-answers (m c) f l }

first-answers :
    {S A B : Type 0} (r : Run S A) (g : A → B)
    → IsAnswered r
    → IsAnswered (continue r λ a. pure (g a))
first-answers (done a c) g h = h
first-answers (panicked c) g h = tt

SendsResponse-first :
    {S A B : Type 0} (m : Action S A) (g : A → B)
    → SendsResponse m
    → SendsResponse (m >>= λ a. pure (g a))
SendsResponse-first m g k = record { at = λ c. first-answers (m c) g (k.at c) }

sent-write_header :
    (code : ℕ) (w w' : ResponseWriter) → 200 ≤ code → write_header code w ≡ some w' → w'.sent ≢ none
unfolding write_header
sent-write_header code w w' final h e = ground arith

sent-http_error :
    (text : String) (code : ℕ) (w w' : ResponseWriter)
    → http_error text code w ≡ some w'
    → w'.sent ≢ none
unfolding http_error
sent-http_error text code w w' h e = ground arith

sent-write : (payload : String) (w : ResponseWriter) → (write payload w).0.sent ≢ none
unfolding write
sent-write payload w e = ground arith

module _ {S : Type 0} where
  sent_by :
      (f : ResponseWriter → Option ResponseWriter)
      → ((w w' : ResponseWriter) → f w ≡ some w' → w'.sent ≢ none)
      → SendsResponse {S = S} (respond f)
  sent_by f h = record {
    at = λ c. elim (Option-cases (f c.writer)) [
      | inl e ↦ rw e tt
      | inr (w, e) ↦ rw e (h c.writer w e)
    ];
  }

  pub SendsResponse-write_header :
      (code : ℕ) → 200 ≤ code → SendsResponse {S = S} (respond (write_header code))
  SendsResponse-write_header code final =
      sent_by (write_header code) (λ w w' h. sent-write_header code w w' final h)

  pub SendsResponse-accepted : SendsResponse {S = S} (respond (write_header 200))
  SendsResponse-accepted = SendsResponse-write_header 200 (omega arith)

  pub SendsResponse-handle_error : (e : Error) → SendsResponse {S = S} (handle_error (some e))
  unfolding handle_error
  SendsResponse-handle_error e =
      sent_by _ (sent-http_error (error_text (some e)) (error_status (some e)))

  SendsResponse-write_payload : (payload : String) → SendsResponse {S = S} (write_payload payload)
  SendsResponse-write_payload payload = record { at = λ c. sent-write payload c.writer }

  SendsResponse-write_marshalled : (r : Result String) → SendsResponse {S = S} (write_marshalled r)
  SendsResponse-write_marshalled (ok payload) = SendsResponse-write_payload payload
  SendsResponse-write_marshalled (err e) =
      SendsResponse-first (handle_error (some internal_server)) (λ _. some e)
        (SendsResponse-handle_error internal_server)

  pub SendsResponse-finish :
      (marshal : Value → Result String) (v : Value) → SendsResponse {S = S} (finish marshal v)
  unfolding finish
  SendsResponse-finish marshal v =
      SendsResponse-first (write_json_body marshal v) (λ _. tt)
        (SendsResponse-bind
          (respond (λ w. some (set_on "Content-Type" "application/json; charset=utf-8" w)))
          (λ _. write_marshalled (marshal v)) (λ _. SendsResponse-write_marshalled (marshal v)))

  pub SendsResponse-or_handle :
      {A : Type 0} (r : Result A) (k : A → Action S (Unit {0}))
      → ((a : A) → SendsResponse (k a))
      → SendsResponse (or_handle r k)
  SendsResponse-or_handle (ok a) k h = h a
  SendsResponse-or_handle (err e) k h = SendsResponse-handle_error e

  pub SendsResponse-unless_error :
      (e : GoError) (k : Action S (Unit {0})) → SendsResponse k → SendsResponse (unless_error e k)
  SendsResponse-unless_error none k h = h
  SendsResponse-unless_error (some e) k h = SendsResponse-handle_error e

pub ruleset answers = (
  SendsResponse-if, SendsResponse-bind, SendsResponse-accepted, SendsResponse-handle_error,
  SendsResponse-finish, SendsResponse-or_handle, SendsResponse-unless_error,
)
