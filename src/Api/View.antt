-- ===== src/Api/View.antt =====
-- What the public may see of the store: current documents, and which ids are known.
use dp_topic_api.Prelude.{ℕ, String, ◌≡◌, Option}
use dp_topic_api.Errors.{Result, ok, err}
use dp_topic_api.Models.Topic.{Topic, TopicResponse}
use dp_topic_api.Models.Content.{Content, ContentResponse}
use dp_topic_api.Store.{Storer}

-- What the public may see of a read: the current document, or the error.
abbrev pub redact : Result TopicResponse → Result (Option Topic)
redact (ok t) = ok t.current
redact (err e) = err e

abbrev pub redact_content : Result ContentResponse → Result (String × Option Content)
redact_content (ok c) = ok (c.id, c.current)
redact_content (err e) = err e

-- Two stores that differ at most in next documents and in the ids inside responses.
pub record AgreesInPublic {S : Type 0} (storer : Storer S) (s s' : S) : Type 0 where
  pub topics : (id : String) → redact (storer.get_topic id s) ≡ redact (storer.get_topic id s')
  pub known : (id : String) → storer.check_topic_exists id s ≡ storer.check_topic_exists id s'
  pub contents :
      (id : String) (flags : ℕ)
      → redact_content (storer.get_content id flags s)
        ≡ redact_content (storer.get_content id flags s')
