-- ===== src/Api/Content.antt =====
-- api/content.go: the handlers that list a topic's content.
pub mod Effects
pub mod Bounds
pub mod Secrecy
pub mod Replies
use dp_topic_api.Prelude.{ℕ, String, ◌&&◌, Option, none, some, nat_eq, if◌then◌else◌}
use dp_topic_api.Errors.{content_unrecognised_parameter, content_not_found, internal_server}
use dp_topic_api.Http.{Request, var}
use dp_topic_api.Models.Content.{Content, ContentResponse, ContentResponseApi}
use dp_topic_api.Store.{Storer}
use dp_topic_api.Api.Query.{get_content_type_parameter, get_required_items}
use dp_topic_api.Api.Action.{Action, deref, gets, ◌>>=◌}
use dp_topic_api.Api.Respond.{
  content_response, private_content, handle_error, or_handle, unless_error, finish,
}
use dp_topic_api.Api.Env.{Env}

module _ {S : Type 0} (storer : Storer S) (env : Env) where
  -- What both handlers do first: the flags, the topic, the content.
  abbrev with_content : Request → (ℕ → ContentResponse → Action S (Unit {0})) → Action S (Unit {0})
  with_content req show = do
    flags ← deref (get_content_type_parameter env.lower req.query)
    if nat_eq flags 0 then handle_error (some content_unrecognised_parameter) else do
      missing ← gets (storer.check_topic_exists (var "id" req))
      unless_error missing
          (do found ← gets (storer.get_content (var "id" req) flags); or_handle found (show flags))

  answer_current : ContentResponseApi → Action S (Unit {0})
  answer_current result =
      if nat_eq result.total_count 0
      then handle_error (some content_not_found)
      else finish env.marshal (content_response result)

  show_current : ℕ → String → Option Content → Action S (Unit {0})
  show_current flags id none = handle_error (some content_not_found)
  show_current flags id (some current) = answer_current (get_required_items flags current id)

  unfoldable pub get_content_public_handler : Request → Action S (Unit {0})
  unfolding answer_current show_current
  get_content_public_handler req =
      with_content req λ flags content. show_current flags content.id content.current

  answer_both : ContentResponseApi → ContentResponseApi → Action S (Unit {0})
  answer_both current_result next_result =
      if nat_eq current_result.total_count 0 && nat_eq next_result.total_count 0
      then handle_error (some content_not_found)
      else finish env.marshal
          (private_content (record { next = some next_result; current = some current_result }))

  show_both : ℕ → String → Option Content → Option Content → Action S (Unit {0})
  show_both flags id none next = handle_error (some internal_server)
  show_both flags id (some current) none = handle_error (some internal_server)
  show_both flags id (some current) (some next) =
      answer_both (get_required_items flags current id) (get_required_items flags next id)

  unfoldable pub get_content_private_handler : Request → Action S (Unit {0})
  unfolding answer_both show_both
  get_content_private_handler req =
      with_content req λ flags content. show_both flags content.id content.current content.next
