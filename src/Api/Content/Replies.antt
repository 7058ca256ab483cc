-- ===== src/Api/Content/Replies.antt =====
-- The replies of the handlers of api/content.go.
use dp_topic_api.Prelude.{
  ℕ, String, ◌≡◌, ◌≢◌, refl, inl, inr, Option, none, some, false, Option-cases, Bool-cases, nat_eq,
  ◌&&◌, arith,
}
use dp_topic_api.Errors.{
  Error, ok, err, Result-cases, content_unrecognised_parameter, content_not_found, internal_server,
}
use dp_topic_api.Http.{Request, var}
use dp_topic_api.Store.{Storer}
use dp_topic_api.Models.Content.{Content, ContentResponse, PrivateContentResponseApi}
use dp_topic_api.Api.Action.{Conn, Run, Action, done, panicked}
use dp_topic_api.Api.Outcome.{IsFresh}
use dp_topic_api.Api.Query.{get_content_type_parameter, get_required_items}
use dp_topic_api.Api.Query.Requested.{Requested, get_content_type_parameter-Requested}
use dp_topic_api.Api.Respond.{content_response, private_content}
use dp_topic_api.Api.Respond.Statuses.{failed, finished, handle_error_lem, finish_lem}
use dp_topic_api.Api.Env.{Env}
use dp_topic_api.Api.Content.{
  with_content, answer_current, show_current, answer_both, show_both, get_content_public_handler,
  get_content_private_handler,
}

not_both : (a b : ℕ) → (nat_eq a 0 && nat_eq b 0) ≡ false → ¬ ((a ≡ 0) × (b ≡ 0))
not_both a b h (p, q) = ground arith

module _ {S : Type 0} (storer : Storer S) (env : Env) (c : Conn S) where
  -- What both content handlers answer for the flags and the id of a request, when `Shows` tells what
  -- they do with the content that is found.
  pub data Fetches (Shows : ℕ → ContentResponse → Run S (Unit {0}) → Type 0) (id : String)
      : Option ℕ → Run S (Unit {0}) → Type 0 where
    no_value : Fetches Shows id none (panicked c)
    unrecognised : Fetches Shows id (some 0) (done tt (failed content_unrecognised_parameter c))
    unknown :
        {flags : ℕ} {e : Error}
        → flags ≢ 0
        → storer.check_topic_exists id c.store ≡ some e
        → Fetches Shows id (some flags) (done tt (failed e c))
    no_document :
        {flags : ℕ} {e : Error}
        → flags ≢ 0
        → storer.check_topic_exists id c.store ≡ none
        → storer.get_content id flags c.store ≡ err e
        → Fetches Shows id (some flags) (done tt (failed e c))
    fetched :
        {flags : ℕ} {content : ContentResponse} {r : Run S (Unit {0})}
        → flags ≢ 0
        → storer.check_topic_exists id c.store ≡ none
        → storer.get_content id flags c.store ≡ ok content
        → Shows flags content r
        → Fetches Shows id (some flags) r

  -- What the public handler does with it.
  pub data ShowsCurrent (flags : ℕ) (content : ContentResponse) : Run S (Unit {0}) → Type 0 where
    unpublished :
        content.current ≡ none → ShowsCurrent flags content (done tt (failed content_not_found c))
    nothing_selected :
        {current : Content}
        → content.current ≡ some current
        → (get_required_items flags current content.id).total_count ≡ 0
        → ShowsCurrent flags content (done tt (failed content_not_found c))
    shown :
        {current : Content}
        → content.current ≡ some current
        → (get_required_items flags current content.id).total_count ≢ 0
        → ShowsCurrent flags content (
            done tt (
              finished
                (env.marshal (content_response (get_required_items flags current content.id)))
                c))

  abbrev both : ℕ → String → Content → Content → PrivateContentResponseApi
  both flags id current next = record {
    next = some (get_required_items flags next id);
    current = some (get_required_items flags current id);
  }

  -- What the private handler does with it.
  pub data ShowsBoth (flags : ℕ) (content : ContentResponse) : Run S (Unit {0}) → Type 0 where
    no_current :
        content.current ≡ none → ShowsBoth flags content (done tt (failed internal_server c))
    no_next : content.next ≡ none → ShowsBoth flags content (done tt (failed internal_server c))
    nothing_selected :
        {current next : Content}
        → content.current ≡ some current
        → content.next ≡ some next
        → (get_required_items flags current content.id).total_count ≡ 0
        → (get_required_items flags next content.id).total_count ≡ 0
        → ShowsBoth flags content (done tt (failed content_not_found c))
    shown :
        {current next : Content}
        → content.current ≡ some current
        → content.next ≡ some next
        → ¬ (
            ((get_required_items flags current content.id).total_count ≡ 0)
            × ((get_required_items flags next content.id).total_count ≡ 0))
        → ShowsBoth flags content (
            done tt
              (finished (env.marshal (private_content (both flags content.id current next))) c))

  module _ (fresh : IsFresh c) where
    fetch :
        (Shows : ℕ → ContentResponse → Run S (Unit {0}) → Type 0)
        (show : ℕ → ContentResponse → Action S (Unit {0}))
        → ((flags : ℕ) (content : ContentResponse) → Shows flags content (show flags content c))
        → (req : Request)
        → Fetches Shows
            (var "id" req)
            (get_content_type_parameter env.lower req.query)
            (with_content storer env req show c)
    fetch Shows show h req = elim (Option-cases (get_content_type_parameter env.lower req.query)) [
      | inl e ↦ rw e Fetches.no_value
      | inr (flags, e) ↦ elim (Bool-cases (nat_eq flags 0)) [
        | inl z ↦
            let zero : flags ≡ 0 = ground arith in
            rw (e, zero, handle_error_lem c fresh content_unrecognised_parameter)
              Fetches.unrecognised
        | inr z ↦ elim (Option-cases (storer.check_topic_exists (var "id" req) c.store)) [
          | inr (failure, k) ↦
              rw (e, z, k, handle_error_lem c fresh failure) (Fetches.unknown (ground arith) k)
          | inl k ↦ elim (Result-cases (storer.get_content (var "id" req) flags c.store)) [
            | inl (content, g) ↦
                rw (e, z, k, g) (Fetches.fetched (ground arith) k g (h flags content))
            | inr (failure, g) ↦
                rw (e, z, k, g, handle_error_lem c fresh failure)
                  (Fetches.no_document (ground arith) k g)
          ]
        ]
      ]
    ]

    show_current-ShowsCurrent :
        (flags : ℕ) (content : ContentResponse) (o : Option Content)
        → content.current ≡ o
        → ShowsCurrent flags content (show_current storer env flags content.id o c)
    unfolding show_current answer_current
    show_current-ShowsCurrent flags content none h =
        rw (handle_error_lem c fresh content_not_found) (ShowsCurrent.unpublished h)
    show_current-ShowsCurrent flags content (some current) h =
        let items = get_required_items flags current content.id in
        elim (Bool-cases (nat_eq items.total_count 0)) [
          | inl e ↦
              rw (e, handle_error_lem c fresh content_not_found)
                (ShowsCurrent.nothing_selected h (ground arith))
          | inr e ↦
              rw (e, finish_lem env.marshal (content_response items) c fresh)
                (ShowsCurrent.shown h (ground arith))
        ]

    show_both-ShowsBoth :
        (flags : ℕ) (content : ContentResponse) (o n : Option Content)
        → content.current ≡ o
        → content.next ≡ n
        → ShowsBoth flags content (show_both storer env flags content.id o n c)
    unfolding show_both answer_both
    show_both-ShowsBoth flags content none n h k =
        rw (handle_error_lem c fresh internal_server) (ShowsBoth.no_current h)
    show_both-ShowsBoth flags content (some current) none h k =
        rw (handle_error_lem c fresh internal_server) (ShowsBoth.no_next k)
    show_both-ShowsBoth flags content (some current) (some next) h k =
        let items = get_required_items flags current content.id in
        let next_items = get_required_items flags next content.id in
        elim (Bool-cases (nat_eq items.total_count 0 && nat_eq next_items.total_count 0)) [
          | inl e ↦
              rw (e, handle_error_lem c fresh content_not_found)
                (ShowsBoth.nothing_selected h k (ground arith) (ground arith))
          | inr e ↦
              rw
                (
                  e,
                  finish_lem env.marshal (private_content (both flags content.id current next)) c
                      fresh,
                )
                (ShowsBoth.shown h k (not_both _ _ e))
        ]

    -- On a connection where nothing was sent yet the public content handler answers, the checks in
    -- this order: 400 for a query type whose first value is no query word, once it is lowered and
    -- trimmed; the store's error for an unknown topic or missing content; 404 where no current
    -- document is there or the query selects no items; else the items of the current document that
    -- are of the kinds asked for: those of the word, or all where the query has no type. It panics
    -- only for a query type with no value.
    pub get_content_public_handler-Fetches :
        (req : Request)
        → (asked : Option ℕ) × Requested env.lower req.query asked
          × Fetches ShowsCurrent (var "id" req) asked (get_content_public_handler storer env req c)
    unfolding get_content_public_handler
    get_content_public_handler-Fetches req = (
      _,
      get_content_type_parameter-Requested env.lower req.query,
      fetch ShowsCurrent (λ flags content. show_current storer env flags content.id content.current)
          (λ flags content. show_current-ShowsCurrent flags content content.current refl) req,
    )

    -- On a connection where nothing was sent yet the private content handler answers by the same
    -- checks: a panic for a query type with no value, 400 for a first value that is no query word,
    -- the store's error for an unknown topic or missing content. With the content it answers 500
    -- where either version is missing, 404 where the query selects no items of either version, else
    -- the items of both that are of the kinds asked for.
    pub get_content_private_handler-Fetches :
        (req : Request)
        → (asked : Option ℕ) × Requested env.lower req.query asked
          × Fetches ShowsBoth (var "id" req) asked (get_content_private_handler storer env req c)
    unfolding get_content_private_handler
    get_content_private_handler-Fetches req = (
      _,
      get_content_type_parameter-Requested env.lower req.query,
      fetch ShowsBoth
          (λ flags content. show_both storer env flags content.id content.current content.next)
          (λ flags content.
            show_both-ShowsBoth flags content content.current content.next refl refl)
          req,
    )
