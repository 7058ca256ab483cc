-- ===== src/Api/Content/Secrecy.antt =====
-- The public handler of api/content.go responds by what the public may see.
use dp_topic_api.Prelude.{ℕ, String, refl, Option, none, some, ◌≡◌, nat_eq}
use dp_topic_api.Errors.{Result, ok, err, content_unrecognised_parameter}
use dp_topic_api.Http.{Request, var}
use dp_topic_api.Store.{Storer}
use dp_topic_api.Models.Content.{Content, ContentResponse}
use dp_topic_api.Api.Action.{Action, deref, gets, ◌>>=◌}
use dp_topic_api.Api.Action.Rules.{KeepsStore-deref}
use dp_topic_api.Api.Action.Views.{
  IsBlind, IsBlind-if, IsBlind-bind, IsBlind-view, IsBlind-deref, blind,
}
use dp_topic_api.Api.Respond.{handle_error, or_handle, unless_error}
use dp_topic_api.Api.Env.{Env}
use dp_topic_api.Api.View.{redact_content, AgreesInPublic}
use dp_topic_api.Api.Query.{get_content_type_parameter}
use dp_topic_api.Api.Content.{answer_current, show_current, get_content_public_handler}

module _ {S : Type 0} (storer : Storer S) (env : Env) where
  abbrev Blind : {A : Type 0} → Action S A → Type 0
  Blind = IsBlind (AgreesInPublic storer)

  show_current-IsBlind :
      (flags : ℕ) (id : String) (current : Option Content)
      → Blind (show_current storer env flags id current)
  unfolding show_current answer_current
  show_current-IsBlind flags id none = search blind
  show_current-IsBlind flags id (some current) = search blind

  show_seen : ℕ → Result (String × Option Content) → Action S (Unit {0})
  show_seen flags seen = or_handle seen λ view. show_current storer env flags view.0 view.1

  show_seen-IsBlind :
      (flags : ℕ) (seen : Result (String × Option Content)) → Blind (show_seen flags seen)
  unfolding show_seen
  show_seen-IsBlind flags seen = search (blind, show_current-IsBlind)

  show_seen_lem :
      (flags : ℕ) (found : Result ContentResponse)
      → or_handle found (λ content. show_current storer env flags content.id content.current)
        ≡ show_seen flags (redact_content found)
  unfolding show_seen
  show_seen_lem flags (ok c) = refl
  show_seen_lem flags (err e) = refl

  read_content :
      (id : String) (flags : ℕ)
      → Blind (
          gets (storer.get_content id flags) >>= λ found.
          or_handle found λ content. show_current storer env flags content.id content.current)
  read_content id flags =
      IsBlind-view (AgreesInPublic storer) (storer.get_content id flags) redact_content _
        (show_seen flags) (λ s s' agree. agree.contents id flags) (show_seen_lem flags)
        (show_seen-IsBlind flags)

  read_known :
      (id : String) (k : Action S (Unit {0}))
      → Blind k
      → Blind (gets (storer.check_topic_exists id) >>= λ missing. unless_error missing k)
  read_known id k h =
      IsBlind-view (AgreesInPublic storer) (storer.check_topic_exists id) (λ missing. missing) _
        (λ missing. unless_error missing k) (λ s s' agree. agree.known id) (λ missing. refl)
        (λ missing. search blind)

  pub get_content_public_handler-IsBlind :
      (req : Request) → Blind (get_content_public_handler storer env req)
  unfolding get_content_public_handler
  get_content_public_handler-IsBlind req =
      let flags = get_content_type_parameter env.lower req.query in
      IsBlind-bind (AgreesInPublic storer) (deref flags) _ (KeepsStore-deref flags)
        (IsBlind-deref (AgreesInPublic storer) flags)
        λ asked.
          IsBlind-if (AgreesInPublic storer) (nat_eq asked 0)
            (handle_error (some content_unrecognised_parameter)) _ (search blind)
            (read_known (var "id" req) _ (read_content (var "id" req) asked))
