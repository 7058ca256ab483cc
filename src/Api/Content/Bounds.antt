-- ===== src/Api/Content/Bounds.antt =====
-- The statuses that the handlers of api/content.go send.
use dp_topic_api.Prelude.{ℕ, String, Option, none, some}
use dp_topic_api.Http.{Request}
use dp_topic_api.Store.{Storer}
use dp_topic_api.Models.Content.{Content, ContentResponse}
use dp_topic_api.Api.Action.{Action}
use dp_topic_api.Api.Action.Bounds.{KeepsBounds, bounded}
use dp_topic_api.Api.Env.{Env}
use dp_topic_api.Api.Content.{
  with_content, get_content_public_handler, get_content_private_handler, answer_current,
  show_current, answer_both, show_both,
}

module _ {S : Type 0} (storer : Storer S) (env : Env) where
  with_content-KeepsBounds :
      (req : Request) (show : ℕ → ContentResponse → Action S (Unit {0}))
      → ((flags : ℕ) (content : ContentResponse) → KeepsBounds (show flags content))
      → KeepsBounds (with_content storer env req show)
  with_content-KeepsBounds req show h = search bounded depth 9

  show_current-KeepsBounds :
      (flags : ℕ) (id : String) (current : Option Content)
      → KeepsBounds (show_current storer env flags id current)
  unfolding show_current answer_current
  show_current-KeepsBounds flags id none = search bounded
  show_current-KeepsBounds flags id (some current) = search bounded

  show_both-KeepsBounds :
      (flags : ℕ) (id : String) (current next : Option Content)
      → KeepsBounds (show_both storer env flags id current next)
  unfolding show_both answer_both
  show_both-KeepsBounds flags id none next = search bounded
  show_both-KeepsBounds flags id (some current) none = search bounded
  show_both-KeepsBounds flags id (some current) (some next) = search bounded

  pub get_content_public_handler-KeepsBounds :
      (req : Request) → KeepsBounds (get_content_public_handler storer env req)
  unfolding get_content_public_handler
  get_content_public_handler-KeepsBounds req =
      with_content-KeepsBounds req
        (λ flags content. show_current storer env flags content.id content.current)
        (λ flags content. show_current-KeepsBounds flags content.id content.current)

  pub get_content_private_handler-KeepsBounds :
      (req : Request) → KeepsBounds (get_content_private_handler storer env req)
  unfolding get_content_private_handler
  get_content_private_handler-KeepsBounds req =
      with_content-KeepsBounds req
        (λ flags content. show_both storer env flags content.id content.current content.next)
        (λ flags content. show_both-KeepsBounds flags content.id content.current content.next)
