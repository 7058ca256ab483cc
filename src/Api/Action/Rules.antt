-- ===== src/Api/Action/Rules.antt =====
-- The actions that leave the store alone, with one rule for each way to build one.
use dp_topic_api.Prelude.{
  String, ◌≡◌, refl, ◌∙◌, Bool, true, false, Option, none, some, if◌then◌else◌,
}
use dp_topic_api.Errors.{GoError, Result, ok, err, internal_server}
use dp_topic_api.Http.{ResponseWriter, http_error, set_on}
use dp_topic_api.Api.Action.{
  Conn, Run, done, panicked, Action, pure, deref, gets, respond, run_writer, continue, ◌>>=◌,
}
use dp_topic_api.Api.Outcome.{store_after}
use dp_topic_api.Api.Respond.{
  Value, handle_error, write_payload, write_marshalled, write_json_body, finish, or_handle,
  unless_error, error_status, error_text,
}

pub record KeepsStore {S A : Type 0} (m : Action S A) : Type 0 where
  pub at : (c : Conn S) → store_after (m c) ≡ c.store

continue-store :
    {S A B : Type 0} (s : S) (r : Run S A) (f : A → Action S B)
    → ((a : A) → KeepsStore (f a))
    → store_after r ≡ s
    → store_after (continue r f) ≡ s
continue-store s (done a c) f k h = (k a).at c ∙ h
continue-store s (panicked c) f k h = h

run_writer-store :
    {S : Type 0} (w : Option ResponseWriter) (c : Conn S) → store_after (run_writer w c) ≡ c.store
run_writer-store none c = refl
run_writer-store (some w) c = refl

module _ {S A : Type 0} where
  pub KeepsStore-pure : (a : A) → KeepsStore {S = S} (pure a)
  KeepsStore-pure a = record { at = λ c. refl }

  pub KeepsStore-gets : (f : S → A) → KeepsStore (gets f)
  KeepsStore-gets f = record { at = λ c. refl }

  pub KeepsStore-deref : (o : Option A) → KeepsStore {S = S} (deref o)
  KeepsStore-deref none = record { at = λ c. refl }
  KeepsStore-deref (some a) = record { at = λ c. refl }

  pub KeepsStore-if :
      (b : Bool) (m n : Action S A) → KeepsStore m → KeepsStore n → KeepsStore (if b then m else n)
  KeepsStore-if true m n k l = k
  KeepsStore-if false m n k l = l

pub KeepsStore-elim :
    {S A B : Type 0} (m : Action S B) (k : A → Action S B)
    → KeepsStore m
    → ((a : A) → KeepsStore (k a))
    → (found : Result A) → KeepsStore (elim found [ err _ ↦ m | ok a ↦ k a ])
KeepsStore-elim m k h l (err e) = h
KeepsStore-elim m k h l (ok a) = l a

module _ {S A B : Type 0} where
  pub KeepsStore-bind :
      (m : Action S A) (f : A → Action S B)
      → KeepsStore m
      → ((a : A) → KeepsStore (f a))
      → KeepsStore (m >>= f)
  KeepsStore-bind m f k l = record { at = λ c. continue-store c.store (m c) f l (k.at c) }

module _ {S : Type 0} where
  pub KeepsStore-respond :
      (f : ResponseWriter → Option ResponseWriter) → KeepsStore {S = S} (respond f)
  KeepsStore-respond f = record { at = λ c. run_writer-store (f c.writer) c }

  pub KeepsStore-handle_error : (e : GoError) → KeepsStore {S = S} (handle_error e)
  unfolding handle_error
  KeepsStore-handle_error e = KeepsStore-respond (http_error (error_text e) (error_status e))

  KeepsStore-write_payload : (payload : String) → KeepsStore {S = S} (write_payload payload)
  KeepsStore-write_payload payload = record { at = λ c. refl }

  KeepsStore-write_marshalled : (r : Result String) → KeepsStore {S = S} (write_marshalled r)
  KeepsStore-write_marshalled (ok payload) = KeepsStore-write_payload payload
  KeepsStore-write_marshalled (err e) =
      KeepsStore-bind (handle_error (some internal_server)) (λ _. pure (some e))
        (KeepsStore-handle_error (some internal_server)) (λ _. KeepsStore-pure (some e))

  pub KeepsStore-write_json_body :
      (marshal : Value → Result String) (v : Value) → KeepsStore {S = S} (write_json_body marshal v)
  unfolding write_json_body
  KeepsStore-write_json_body marshal v =
      KeepsStore-bind
        (respond (λ w. some (set_on "Content-Type" "application/json; charset=utf-8" w)))
        (λ _. write_marshalled (marshal v))
        (KeepsStore-respond (λ w. some (set_on "Content-Type" "application/json; charset=utf-8" w)))
        (λ _. KeepsStore-write_marshalled (marshal v))

  pub KeepsStore-finish :
      (marshal : Value → Result String) (v : Value) → KeepsStore {S = S} (finish marshal v)
  unfolding finish
  KeepsStore-finish marshal v =
      KeepsStore-bind (write_json_body marshal v) (λ _. pure tt)
        (KeepsStore-write_json_body marshal v) (λ _. KeepsStore-pure tt)

  pub KeepsStore-or_handle :
      {A : Type 0} (r : Result A) (k : A → Action S (Unit {0}))
      → ((a : A) → KeepsStore (k a))
      → KeepsStore (or_handle r k)
  KeepsStore-or_handle (ok a) k h = h a
  KeepsStore-or_handle (err e) k h = KeepsStore-handle_error (some e)

  pub KeepsStore-unless_error :
      (e : GoError) (k : Action S (Unit {0})) → KeepsStore k → KeepsStore (unless_error e k)
  KeepsStore-unless_error none k h = h
  KeepsStore-unless_error (some e) k h = KeepsStore-handle_error (some e)

pub ruleset reads = (
  KeepsStore-pure, KeepsStore-gets, KeepsStore-deref, KeepsStore-if, KeepsStore-bind,
  KeepsStore-respond, KeepsStore-handle_error, KeepsStore-finish, KeepsStore-or_handle,
  KeepsStore-unless_error,
)
