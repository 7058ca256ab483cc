-- ===== src/Api/Content/Effects.antt =====
-- The handlers of api/content.go leave the store alone, and send a response.
use dp_topic_api.Prelude.{ℕ, String, Option, none, some}
use dp_topic_api.Http.{Request}
use dp_topic_api.Store.{Storer}
use dp_topic_api.Models.Content.{Content, ContentResponse}
use dp_topic_api.Api.Action.{Action}
use dp_topic_api.Api.Action.Rules.{KeepsStore, reads}
use dp_topic_api.Api.Action.Replies.{SendsResponse, answers}
use dp_topic_api.Api.Env.{Env}
use dp_topic_api.Api.Content.{
  with_content, get_content_public_handler, get_content_private_handler, answer_current,
  show_current, answer_both, show_both,
}

module _ {S : Type 0} (storer : Storer S) (env : Env) where
  with_content-KeepsStore :
      (req : Request) (show : ℕ → ContentResponse → Action S (Unit {0}))
      → ((flags : ℕ) (content : ContentResponse) → KeepsStore (show flags content))
      → KeepsStore (with_content storer env req show)
  with_content-KeepsStore req show h = search reads depth 9

  with_content-SendsResponse :
      (req : Request) (show : ℕ → ContentResponse → Action S (Unit {0}))
      → ((flags : ℕ) (content : ContentResponse) → SendsResponse (show flags content))
      → SendsResponse (with_content storer env req show)
  with_content-SendsResponse req show h = search answers depth 9

  show_current-KeepsStore :
      (flags : ℕ) (id : String) (current : Option Content)
      → KeepsStore (show_current storer env flags id current)
  unfolding show_current answer_current
  show_current-KeepsStore flags id none = search reads
  show_current-KeepsStore flags id (some current) = search reads

  show_current-SendsResponse :
      (flags : ℕ) (id : String) (current : Option Content)
      → SendsResponse (show_current storer env flags id current)
  unfolding show_current answer_current
  show_current-SendsResponse flags id none = search answers
  show_current-SendsResponse flags id (some current) = search answers

  show_both-KeepsStore :
      (flags : ℕ) (id : String) (current next : Option Content)
      → KeepsStore (show_both storer env flags id current next)
  unfolding show_both answer_both
  show_both-KeepsStore flags id none next = search reads
  show_both-KeepsStore flags id (some current) none = search reads
  show_both-KeepsStore flags id (some current) (some next) = search reads

  show_both-SendsResponse :
      (flags : ℕ) (id : String) (current next : Option Content)
      → SendsResponse (show_both storer env flags id current next)
  unfolding show_both answer_both
  show_both-SendsResponse flags id none next = search answers
  show_both-SendsResponse flags id (some current) none = search answers
  show_both-SendsResponse flags id (some current) (some next) = search answers

  pub get_content_public_handler-KeepsStore :
      (req : Request) → KeepsStore (get_content_public_handler storer env req)
  unfolding get_content_public_handler
  get_content_public_handler-KeepsStore req =
      with_content-KeepsStore req
        (λ flags content. show_current storer env flags content.id content.current)
        (λ flags content. show_current-KeepsStore flags content.id content.current)

  pub get_content_private_handler-KeepsStore :
      (req : Request) → KeepsStore (get_content_private_handler storer env req)
  unfolding get_content_private_handler
  get_content_private_handler-KeepsStore req =
      with_content-KeepsStore req
        (λ flags content. show_both storer env flags content.id content.current content.next)
        (λ flags content. show_both-KeepsStore flags content.id content.current content.next)

  pub get_content_public_handler-SendsResponse :
      (req : Request) → SendsResponse (get_content_public_handler storer env req)
  unfolding get_content_public_handler
  get_content_public_handler-SendsResponse req =
      with_content-SendsResponse req
        (λ flags content. show_current storer env flags content.id content.current)
        (λ flags content. show_current-SendsResponse flags content.id content.current)

  pub get_content_private_handler-SendsResponse :
      (req : Request) → SendsResponse (get_content_private_handler storer env req)
  unfolding get_content_private_handler
  get_content_private_handler-SendsResponse req =
      with_content-SendsResponse req
        (λ flags content. show_both storer env flags content.id content.current content.next)
        (λ flags content. show_both-SendsResponse flags content.id content.current content.next)
