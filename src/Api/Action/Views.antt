-- ===== src/Api/Action/Views.antt =====
-- Actions that cannot tell two related stores apart, with one rule for each way to build one.
use dp_topic_api.Prelude.{
  String, Bool, true, false, ◌≡◌, refl, sym, ap, ◌∙◌, Option, none, some, if◌then◌else◌,
}
use dp_topic_api.Errors.{GoError, Result, ok, err, internal_server}
use dp_topic_api.Http.{ResponseWriter, http_error, set_on}
use dp_topic_api.Api.Action.{
  Conn, Run, done, panicked, Action, pure, deref, gets, respond, run_writer, continue, ◌>>=◌,
}
use dp_topic_api.Api.Action.Rules.{
  KeepsStore, KeepsStore-respond, KeepsStore-handle_error, KeepsStore-write_json_body,
}
use dp_topic_api.Api.Outcome.{store_after}
use dp_topic_api.Api.Respond.{
  Value, handle_error, write_marshalled, write_json_body, finish, or_handle, unless_error,
  error_status, error_text,
}

-- What a run gives other than the state of the store: its result, `none` if it panicked, and the
-- response.
abbrev pub seen_by_client : {S A : Type 0} → Run S A → Option A × ResponseWriter
seen_by_client (done a c) = (some a, c.writer)
seen_by_client (panicked c) = (none, c.writer)

abbrev pub with_store : {S : Type 0} → S → ResponseWriter → Conn S
with_store s w = record { store = s; writer = w }

module _ {S : Type 0} (R : S → S → Type 0) where
  -- The result and the response are the same on related stores.
  pub record IsBlind {A : Type 0} (m : Action S A) : Type 0 where
    pub at :
        (s s' : S) (w : ResponseWriter)
        → R s s'
        → seen_by_client (m (with_store s w)) ≡ seen_by_client (m (with_store s' w))

  pub IsBlind-pure : {A : Type 0} (a : A) → IsBlind (pure a)
  IsBlind-pure a = record { at = λ s s' w r. refl }

  pub IsBlind-deref : {A : Type 0} (o : Option A) → IsBlind (deref o)
  IsBlind-deref none = record { at = λ s s' w r. refl }
  IsBlind-deref (some a) = record { at = λ s s' w r. refl }

  pub IsBlind-if :
      {A : Type 0} (b : Bool) (m n : Action S A)
      → IsBlind m
      → IsBlind n
      → IsBlind (if b then m else n)
  IsBlind-if true m n h k = h
  IsBlind-if false m n h k = k

  -- A run of each store that ended alike, followed by a blind action.
  continue-blind :
      {A B : Type 0} (s s' : S) (p q : Run S A) (f : A → Action S B)
      → R s s'
      → store_after p ≡ s
      → store_after q ≡ s'
      → seen_by_client p ≡ seen_by_client q
      → ((a : A) → IsBlind (f a))
      → seen_by_client (continue p f) ≡ seen_by_client (continue q f)
  continue-blind s s' (done a c) (done b d) f r i j e h =
      let same_writer : c.writer ≡ d.writer = ap (λ v. v.1) e in
      let same_result : a ≡ b = cc (ap (λ v. v.0) e) in
      ap (λ z. seen_by_client (f a (with_store z c.writer))) i
      ∙ (h a).at s s' c.writer r
      ∙ ap (λ z. seen_by_client (f a (with_store z c.writer))) (sym j)
      ∙ ap (λ z. seen_by_client (f a (with_store d.store z))) same_writer
      ∙ ap (λ z. seen_by_client (f z d)) same_result
  continue-blind s s' (done a c) (panicked d) f r i j e h = cc
  continue-blind s s' (panicked c) (done b d) f r i j e h = cc
  continue-blind s s' (panicked c) (panicked d) f r i j e h = cc

  pub IsBlind-bind :
      {A B : Type 0} (m : Action S A) (f : A → Action S B)
      → KeepsStore m
      → IsBlind m
      → ((a : A) → IsBlind (f a))
      → IsBlind (m >>= f)
  IsBlind-bind m f k h l = record {
    at = λ s s' w r.
        continue-blind s s' (m (with_store s w)) (m (with_store s' w)) f r (k.at (with_store s w))
          (k.at (with_store s' w)) (h.at s s' w r) l;
  }

  -- A read of which only a view is used, which related stores share.
  pub IsBlind-view :
      {A B V : Type 0} (g : S → A) (view : A → V) (f : A → Action S B) (k : V → Action S B)
      → ((s s' : S) → R s s' → view (g s) ≡ view (g s'))
      → ((a : A) → f a ≡ k (view a))
      → ((v : V) → IsBlind (k v))
      → IsBlind (gets g >>= f)
  IsBlind-view g view f k same only h = record {
    at = λ s s' w r.
        ap (λ m. seen_by_client (m (with_store s w))) (only (g s))
        ∙ (h (view (g s))).at s s' w r
        ∙ ap (λ v. seen_by_client (k v (with_store s' w))) (same s s' r)
        ∙ sym (ap (λ m. seen_by_client (m (with_store s' w))) (only (g s')));
  }

  run_writer-blind :
      (s s' : S) (w : ResponseWriter) (o : Option ResponseWriter)
      → seen_by_client (run_writer o (with_store s w))
        ≡ seen_by_client (run_writer o (with_store s' w))
  run_writer-blind s s' w none = refl
  run_writer-blind s s' w (some w') = refl

  pub IsBlind-respond : (f : ResponseWriter → Option ResponseWriter) → IsBlind (respond f)
  IsBlind-respond f = record { at = λ s s' w r. run_writer-blind s s' w (f w) }

  pub IsBlind-handle_error : (e : GoError) → IsBlind (handle_error e)
  unfolding handle_error
  IsBlind-handle_error e = IsBlind-respond (http_error (error_text e) (error_status e))

  IsBlind-write_marshalled : (r : Result String) → IsBlind (write_marshalled r)
  IsBlind-write_marshalled (ok payload) = record { at = λ s s' w r. refl }
  IsBlind-write_marshalled (err e) =
      IsBlind-bind (handle_error (some internal_server)) (λ _. pure (some e))
        (KeepsStore-handle_error (some internal_server))
        (IsBlind-handle_error (some internal_server)) (λ _. IsBlind-pure (some e))

  pub IsBlind-finish : (marshal : Value → Result String) (v : Value) → IsBlind (finish marshal v)
  unfolding finish
  IsBlind-finish marshal v =
      IsBlind-bind (write_json_body marshal v) (λ _. pure tt) (KeepsStore-write_json_body marshal v)
        (IsBlind-bind (respond as_json) (λ _. write_marshalled (marshal v))
          (KeepsStore-respond as_json) (IsBlind-respond as_json)
          (λ _. IsBlind-write_marshalled (marshal v)))
        (λ _. IsBlind-pure tt)
    where
      as_json : ResponseWriter → Option ResponseWriter
      as_json w = some (set_on "Content-Type" "application/json; charset=utf-8" w)

  pub IsBlind-or_handle :
      {A : Type 0} (r : Result A) (k : A → Action S (Unit {0}))
      → ((a : A) → IsBlind (k a))
      → IsBlind (or_handle r k)
  IsBlind-or_handle (ok a) k h = h a
  IsBlind-or_handle (err e) k h = IsBlind-handle_error (some e)

  pub IsBlind-unless_error :
      (e : GoError) (k : Action S (Unit {0})) → IsBlind k → IsBlind (unless_error e k)
  IsBlind-unless_error none k h = h
  IsBlind-unless_error (some e) k h = IsBlind-handle_error (some e)

pub ruleset blind = (
  IsBlind-pure, IsBlind-deref, IsBlind-if, IsBlind-bind, IsBlind-respond, IsBlind-handle_error,
  IsBlind-finish, IsBlind-or_handle, IsBlind-unless_error,
)
