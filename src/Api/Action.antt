-- ===== src/Api/Action.antt =====
-- A handler's run over a connection: the state that the store keeps and the response writer. A run
-- ends, or panics, which net/http recovers from by dropping the connection; what was done before a
-- panic stays done. Logging is left out.
pub mod Rules
pub mod Views
pub mod Replies
pub mod Bounds
use dp_topic_api.Prelude.{ℕ, String, Option, none, some, List, [], ◌∷◌}
use dp_topic_api.Errors.{Error, GoError, Result, ok, err}
use dp_topic_api.Http.{ResponseWriter}

pub record Conn (S : Type 0) : Type 0 where
  pub store : S
  pub writer : ResponseWriter

pub data Run (S A : Type 0) : Type 0 where
  done : A → Conn S → Run S A
  panicked : Conn S → Run S A

abbrev pub Action : Type 0 → Type 0 → Type 0
Action S A = Conn S → Run S A

module _ {S A : Type 0} where
  abbrev pub pure : A → Action S A
  pure a c = done a c

  -- `*p` of a pointer
  abbrev pub deref : Option A → Action S A
  deref none c = panicked c
  deref (some a) c = done a c

  abbrev pub gets : (S → A) → Action S A
  gets f c = done (f c.store) c

  -- A write to the store, with what it returns.
  abbrev pub update : (S → A × S) → Action S A
  update f c = done (f c.store).0 (record c { store = (f c.store).1 })

  abbrev pub run_update : Option (A × S) → Action S A
  run_update none c = panicked c
  run_update (some (a, s)) c = done a (record c { store = s })

  -- A write that may panic.
  abbrev pub try_update : (S → Option (A × S)) → Action S A
  try_update f c = run_update (f c.store) c

abbrev pub run_writer : {S : Type 0} → Option ResponseWriter → Action S (Unit {0})
run_writer none c = panicked c
run_writer (some w) c = done tt (record c { writer = w })

-- A call on the writer, `none` if it panics.
abbrev pub respond : {S : Type 0} → (ResponseWriter → Option ResponseWriter) → Action S (Unit {0})
respond f c = run_writer (f c.writer) c

abbrev pub continue : {S A B : Type 0} → Run S A → (A → Action S B) → Run S B
continue (done a c) f = f a c
continue (panicked c) f = panicked c

infixl 5 ◌>>=◌ ◌>>◌
abbrev pub ◌>>=◌ : {S A B : Type 0} → Action S A → (A → Action S B) → Action S B
◌>>=◌ m f c = continue (m c) f

abbrev pub ◌>>◌ : {S B : Type 0} → Action S (Unit {0}) → Action S B → Action S B
m >> k = m >>= λ _. k
