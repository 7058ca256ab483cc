-- ===== src/Api/Action/Bounds.antt =====
-- The statuses that a handler may send, with one rule for each way to build an action.
use dp_topic_api.Prelude.{
  ℕ, ◌≤◌, Option-cases, String, ◌≡◌, refl, sym, subst, some-injective, Bool, true, false, Option,
  none, some, arith, if◌then◌else◌, inl, inr,
}
use dp_topic_api.Errors.{
  Error, GoError, Result, ok, err, internal_server, topic_not_found, content_not_found, not_found,
  content_unrecognised_parameter, empty_request_body, invalid_release_date, topic_invalid_state,
  topic_missing_fields, topic_state_transition_not_allowed,
}
use dp_topic_api.Http.{ResponseWriter, Sent, write_header, http_error, write, set_on}
use dp_topic_api.Api.Action.{
  Conn, Run, done, panicked, Action, pure, deref, gets, update, run_update, try_update, respond,
  continue, ◌>>=◌,
}
use dp_topic_api.Api.Outcome.{final, status_sent}
use dp_topic_api.Api.Respond.{
  Value, handle_error, write_payload, write_marshalled, write_json_body, finish, or_handle,
  unless_error, error_status, error_text,
}

-- 200, and the statuses of handleError.
pub data IsStatus (code : ℕ) : Type 0 where
  accepted : code ≡ 200 → IsStatus code
  bad_request : code ≡ 400 → IsStatus code
  forbidden : code ≡ 403 → IsStatus code
  missing : code ≡ 404 → IsStatus code
  faulty : code ≡ 500 → IsStatus code

abbrev pub SentStatus : Option Sent → Type 0
SentStatus none = Unit
SentStatus (some sent) = IsStatus sent.status

-- A response that was in these bounds before the run, or not yet sent, is so after it.
pub record KeepsBounds {S A : Type 0} (m : Action S A) : Type 0 where
  pub at : (c : Conn S) → SentStatus c.writer.sent → SentStatus (final (m c)).writer.sent

continue-SentStatus :
    {S A B : Type 0} (r : Run S A) (f : A → Action S B)
    → ((a : A) → KeepsBounds (f a))
    → SentStatus (final r).writer.sent
    → SentStatus (final (continue r f)).writer.sent
continue-SentStatus (done a c) f k h = (k a).at c h
continue-SentStatus (panicked c) f k h = h

run_update-SentStatus :
    {S A : Type 0} (o : Option (A × S)) (c : Conn S)
    → SentStatus c.writer.sent
    → SentStatus (final (run_update o c)).writer.sent
run_update-SentStatus none c h = h
run_update-SentStatus (some (a, s)) c h = h

module _ {S A : Type 0} where
  pub KeepsBounds-pure : (a : A) → KeepsBounds {S = S} (pure a)
  KeepsBounds-pure a = record { at = λ c h. h }

  pub KeepsBounds-gets : (f : S → A) → KeepsBounds (gets f)
  KeepsBounds-gets f = record { at = λ c h. h }

  pub KeepsBounds-update : (f : S → A × S) → KeepsBounds (update f)
  KeepsBounds-update f = record { at = λ c h. h }

  pub KeepsBounds-try_update : (f : S → Option (A × S)) → KeepsBounds (try_update f)
  KeepsBounds-try_update f = record { at = λ c h. run_update-SentStatus (f c.store) c h }

  pub KeepsBounds-deref : (o : Option A) → KeepsBounds {S = S} (deref o)
  KeepsBounds-deref none = record { at = λ c h. h }
  KeepsBounds-deref (some a) = record { at = λ c h. h }

  pub KeepsBounds-if :
      (b : Bool) (m n : Action S A)
      → KeepsBounds m
      → KeepsBounds n
      → KeepsBounds (if b then m else n)
  KeepsBounds-if true m n k l = k
  KeepsBounds-if false m n k l = l

pub KeepsBounds-elim :
    {S A B : Type 0} (m : Error → Action S B) (k : A → Action S B)
    → ((e : Error) → KeepsBounds (m e))
    → ((a : A) → KeepsBounds (k a))
    → (found : Result A) → KeepsBounds (elim found [ err e ↦ m e | ok a ↦ k a ])
KeepsBounds-elim m k h l (err e) = h e
KeepsBounds-elim m k h l (ok a) = l a

module _ {S A B : Type 0} where
  pub KeepsBounds-bind :
      (m : Action S A) (f : A → Action S B)
      → KeepsBounds m
      → ((a : A) → KeepsBounds (f a))
      → KeepsBounds (m >>= f)
  KeepsBounds-bind m f k l = record { at = λ c h. continue-SentStatus (m c) f l (k.at c h) }

error_status-IsStatus : (e : Error) → IsStatus (error_status (some e))
unfolding error_status
error_status-IsStatus topic_not_found = IsStatus.missing refl
error_status-IsStatus content_not_found = IsStatus.missing refl
error_status-IsStatus not_found = IsStatus.missing refl
error_status-IsStatus content_unrecognised_parameter = IsStatus.bad_request refl
error_status-IsStatus empty_request_body = IsStatus.bad_request refl
error_status-IsStatus invalid_release_date = IsStatus.bad_request refl
error_status-IsStatus topic_invalid_state = IsStatus.bad_request refl
error_status-IsStatus topic_missing_fields = IsStatus.bad_request refl
error_status-IsStatus topic_state_transition_not_allowed = IsStatus.forbidden refl
error_status-IsStatus _ = IsStatus.faulty refl

IsStatus-final : (code : ℕ) → IsStatus code → 200 ≤ code
IsStatus-final code (IsStatus.accepted e) = omega (arith, e)
IsStatus-final code (IsStatus.bad_request e) = omega (arith, e)
IsStatus-final code (IsStatus.forbidden e) = omega (arith, e)
IsStatus-final code (IsStatus.missing e) = omega (arith, e)
IsStatus-final code (IsStatus.faulty e) = omega (arith, e)

-- The status of `code` goes out, unless another one has.
abbrev first_sent : Option Sent → ℕ → Option ℕ
first_sent none code = some code
first_sent (some sent) code = some sent.status

first_sent-SentStatus :
    (code : ℕ) (before after : Option Sent)
    → IsStatus code
    → SentStatus before
    → status_sent after ≡ first_sent before code
    → SentStatus after
first_sent-SentStatus code before none k h e = tt
first_sent-SentStatus code none (some sent) k h e = subst IsStatus (sym (some-injective _ _ e)) k
first_sent-SentStatus code (some old) (some sent) k h e =
    subst IsStatus (sym (some-injective _ _ e)) h

sent-write_header :
    (code : ℕ) (w w' : ResponseWriter)
    → 200 ≤ code
    → write_header code w ≡ some w'
    → status_sent w'.sent ≡ first_sent w.sent code
unfolding write_header
sent-write_header code w w' final h = ground arith

sent-http_error :
    (text : String) (code : ℕ) (w w' : ResponseWriter)
    → 200 ≤ code
    → http_error text code w ≡ some w'
    → status_sent w'.sent ≡ first_sent w.sent code
unfolding http_error
sent-http_error text code w w' final h = ground arith

sent-write :
    (payload : String) (w : ResponseWriter)
    → status_sent (write payload w).0.sent ≡ first_sent w.sent 200
unfolding write
sent-write payload w = ground arith

module _ {S : Type 0} where
  sends_first :
      (f : ResponseWriter → Option ResponseWriter) (code : ℕ)
      → IsStatus code
      → ((w w' : ResponseWriter) → f w ≡ some w' → status_sent w'.sent ≡ first_sent w.sent code)
      → KeepsBounds {S = S} (respond f)
  sends_first f code k l = record {
    at = λ c h. elim (Option-cases (f c.writer)) [
      | inl e ↦ rw e h
      | inr (w, e) ↦ rw e (first_sent-SentStatus code c.writer.sent w.sent k h (l c.writer w e))
    ];
  }

  pub KeepsBounds-write_header : KeepsBounds {S = S} (respond (write_header 200))
  KeepsBounds-write_header =
      sends_first (write_header 200) 200 (IsStatus.accepted refl)
        (λ w w' h. sent-write_header 200 w w' (omega arith) h)

  pub KeepsBounds-set_on : (k v : String) → KeepsBounds {S = S} (respond (λ w. some (set_on k v w)))
  unfolding set_on
  KeepsBounds-set_on k v = record { at = λ c h. h }

  pub KeepsBounds-handle_error : (e : Error) → KeepsBounds {S = S} (handle_error (some e))
  unfolding handle_error
  KeepsBounds-handle_error e =
      sends_first _ (error_status (some e)) (error_status-IsStatus e) (λ w w' h.
        sent-http_error (error_text (some e)) (error_status (some e)) w w'
          (IsStatus-final _ (error_status-IsStatus e)) h)

  KeepsBounds-write_payload : (payload : String) → KeepsBounds {S = S} (write_payload payload)
  KeepsBounds-write_payload payload = record {
    at = λ c h.
        first_sent-SentStatus 200 c.writer.sent _ (IsStatus.accepted refl) h
          (sent-write payload c.writer);
  }

  KeepsBounds-write_marshalled : (r : Result String) → KeepsBounds {S = S} (write_marshalled r)
  KeepsBounds-write_marshalled (ok payload) = KeepsBounds-write_payload payload
  KeepsBounds-write_marshalled (err e) =
      KeepsBounds-bind (handle_error (some internal_server)) (λ _. pure (some e))
        (KeepsBounds-handle_error internal_server) (λ _. KeepsBounds-pure (some e))

  pub KeepsBounds-finish :
      (marshal : Value → Result String) (v : Value) → KeepsBounds {S = S} (finish marshal v)
  unfolding finish
  KeepsBounds-finish marshal v =
      KeepsBounds-bind (write_json_body marshal v) (λ _. pure tt)
        (KeepsBounds-bind
          (respond (λ w. some (set_on "Content-Type" "application/json; charset=utf-8" w)))
          (λ _. write_marshalled (marshal v)) (KeepsBounds-set_on _ _)
          (λ _. KeepsBounds-write_marshalled (marshal v)))
        (λ _. KeepsBounds-pure tt)

  pub KeepsBounds-or_handle :
      {A : Type 0} (r : Result A) (k : A → Action S (Unit {0}))
      → ((a : A) → KeepsBounds (k a))
      → KeepsBounds (or_handle r k)
  KeepsBounds-or_handle (ok a) k h = h a
  KeepsBounds-or_handle (err e) k h = KeepsBounds-handle_error e

  pub KeepsBounds-unless_error :
      (e : GoError) (k : Action S (Unit {0})) → KeepsBounds k → KeepsBounds (unless_error e k)
  KeepsBounds-unless_error none k h = h
  KeepsBounds-unless_error (some e) k h = KeepsBounds-handle_error e

pub ruleset bounded = (
  KeepsBounds-pure, KeepsBounds-gets, KeepsBounds-update, KeepsBounds-try_update, KeepsBounds-deref,
  KeepsBounds-if, KeepsBounds-bind, KeepsBounds-write_header, KeepsBounds-set_on,
  KeepsBounds-handle_error, KeepsBounds-finish, KeepsBounds-or_handle, KeepsBounds-unless_error,
)
