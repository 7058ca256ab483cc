-- ===== src/Api/Public/Listing.antt =====
-- `getSubtopicsPublicByID` of api/topic_public.go.
use dp_topic_api.Prelude.{
  ℕ, suc, String, ◌≡◌, ◌≢◌, refl, ap, ◌∙◌, inl, inr, false, Option, none, some, List, [], ◌∷◌, ◌++◌,
  arith, append_assoc, append-nil, length, length-append, or_nil, nat_eq, Option-cases,
}
use dp_topic_api.Errors.{Error, Result, ok, err, Result-cases, content_not_found, not_found}
use dp_topic_api.Models.Topic.{Topic, TopicResponse, PublicSubtopics}
use dp_topic_api.Store.{Storer}
use dp_topic_api.Api.Action.{Conn, Run, done, panicked}
use dp_topic_api.Api.Outcome.{IsFresh}
use dp_topic_api.Api.Respond.{public_subtopics}
use dp_topic_api.Api.Respond.Statuses.{failed, finished, handle_error_lem, finish_lem}
use dp_topic_api.Api.Env.{Env}
use dp_topic_api.Api.View.{redact}
use dp_topic_api.Api.Public.{
  append_current, collect_public, answer_public, list_public, from_current,
  get_subtopics_public_by_id,
}

-- The current documents of the topics that are found, in the order of the ids; `none` where one of
-- them has no current document.
abbrev with_current : Option Topic → Option (List Topic) → Option (List Topic)
with_current none rest = none
with_current (some t) none = none
with_current (some t) (some ts) = some (t ∷ ts)

abbrev kept : Result (Option Topic) → Option (List Topic) → Option (List Topic)
kept (ok current) rest = with_current current rest
kept (err e) rest = rest

abbrev pub found_currents : (String → Result (Option Topic)) → List String → Option (List Topic)
found_currents seen [] = some []
found_currents seen (id ∷ ids) = kept (seen id) (found_currents seen ids)

-- A pointer to a slice as the loop fills it: nil stands for no items.
abbrev pub pointer : {A : Type 0} → List A → Option (List A)
pointer [] = none
pointer (x ∷ xs) = some (x ∷ xs)

abbrev pub listing : List Topic → PublicSubtopics
listing ts = record { total_count = length ts; public_items = pointer ts }

append_current-listing :
    (ts : List Topic) (t : Topic) → append_current (listing ts) t ≡ listing (ts ++ t ∷ [])
append_current-listing [] t = ground arith
append_current-listing (u ∷ ts) t = ground (arith, length-append {0} ts (t ∷ []))

cons_ne : (t : Topic) (ts : List Topic) → t ∷ ts ≢ []
cons_ne t ts h = cc

nat_eq-suc : (n : ℕ) → nat_eq (suc n) 0 ≡ false
nat_eq-suc n = ground arith

module _ {S : Type 0} (storer : Storer S) (env : Env) (c : Conn S) where
  abbrev get : String → Result TopicResponse
  get id = storer.get_topic id c.store

  abbrev seen : String → Result (Option Topic)
  seen id = redact (get id)

  abbrev collected : List Topic → Option (List Topic) → Run S PublicSubtopics
  collected before none = panicked c
  collected before (some ts) = done (listing (before ++ ts)) c

  collected-cons :
      (before : List Topic) (t : Topic) (o : Option (List Topic))
      → collected (before ++ t ∷ []) o ≡ collected before (with_current (some t) o)
  collected-cons before t none = refl
  collected-cons before t (some ts) =
      ap (λ us. done (listing us) c) (append_assoc before (t ∷ []) ts)

  collect_public_lem :
      (ids : List String) (before : List Topic)
      → collect_public storer env ids (listing before) c
        ≡ collected before (found_currents seen ids)
  unfolding collect_public
  collect_public_lem [] before = rw append-nil
  collect_public_lem (id ∷ ids) before = elim (Result-cases (get id)) [
    | inl (t, h) ↦ elim (Option-cases t.current) [
      | inl k ↦ rw (h, k)
      | inr (current, k) ↦
          rw (h, k, append_current-listing before current)
            (collect_public_lem ids (before ++ current ∷ [])
              ∙ collected-cons before current (found_currents seen ids))
    ]
    | inr (e, h) ↦ rw h (collect_public_lem ids before)
  ]

  -- What the public listing of the subtopics of topic `id` answers.
  pub data ListsPublic (id : String) : Run S (Unit {0}) → Type 0 where
    unknown : {e : Error} → get id ≡ err e → ListsPublic id (done tt (failed e c))
    no_current :
        {t : TopicResponse}
        → get id ≡ ok t
        → t.current ≡ none
        → ListsPublic id (done tt (failed content_not_found c))
    no_subtopics :
        {t : TopicResponse} {current : Topic}
        → get id ≡ ok t
        → t.current ≡ some current
        → or_nil current.subtopic_ids ≡ []
        → ListsPublic id (done tt (failed not_found c))
    none_found :
        {t : TopicResponse} {current : Topic}
        → get id ≡ ok t
        → t.current ≡ some current
        → or_nil current.subtopic_ids ≢ []
        → found_currents seen (or_nil current.subtopic_ids) ≡ some []
        → ListsPublic id (done tt (failed content_not_found c))
    listed :
        {t : TopicResponse} {current : Topic} {ts : List Topic}
        → get id ≡ ok t
        → t.current ≡ some current
        → found_currents seen (or_nil current.subtopic_ids) ≡ some ts
        → ts ≢ []
        → ListsPublic id (done tt (finished (env.marshal (public_subtopics (listing ts))) c))
    unpublished :
        {t : TopicResponse} {current : Topic}
        → get id ≡ ok t
        → t.current ≡ some current
        → found_currents seen (or_nil current.subtopic_ids) ≡ none
        → ListsPublic id (panicked c)

  module _ (fresh : IsFresh c) where
    answer_public_empty :
        answer_public storer env (listing []) c ≡ done tt (failed content_not_found c)
    unfolding answer_public
    answer_public_empty = handle_error_lem c fresh content_not_found

    answer_public_some :
        (t : Topic) (ts : List Topic)
        → answer_public storer env (listing (t ∷ ts)) c
          ≡ done tt (finished (env.marshal (public_subtopics (listing (t ∷ ts)))) c)
    unfolding answer_public
    answer_public_some t ts =
        rw (nat_eq-suc (length ts))
          (finish_lem env.marshal (public_subtopics (listing (t ∷ ts))) c fresh)

    list_public_nil : list_public storer env [] c ≡ done tt (failed not_found c)
    unfolding list_public
    list_public_nil = handle_error_lem c fresh not_found

    list_public_lem :
        (id : String) (ids : List String) (ts : List Topic)
        → found_currents seen (id ∷ ids) ≡ some ts
        → list_public storer env (id ∷ ids) c ≡ answer_public storer env (listing ts) c
    unfolding list_public
    list_public_lem id ids ts f = rw (collect_public_lem (id ∷ ids) [], f)

    list_public_panics :
        (id : String) (ids : List String)
        → found_currents seen (id ∷ ids) ≡ none
        → list_public storer env (id ∷ ids) c ≡ panicked c
    unfolding list_public
    list_public_panics id ids f = rw (collect_public_lem (id ∷ ids) [], f)

    current_listed :
        (id : String) (t : TopicResponse) (current : Topic) (ids : List String)
        (o : Option (List Topic))
        → get id ≡ ok t
        → t.current ≡ some current
        → or_nil current.subtopic_ids ≡ ids
        → found_currents seen ids ≡ o
        → ListsPublic id (list_public storer env ids c)
    current_listed id t current [] o h k e f = rw list_public_nil (ListsPublic.no_subtopics h k e)
    current_listed id t current (x ∷ ids) none h k e f =
        rw (list_public_panics x ids f) (ListsPublic.unpublished h k (rw e f))
    current_listed id t current (x ∷ ids) (some []) h k e f =
        rw (list_public_lem x ids [] f, answer_public_empty)
          (ListsPublic.none_found h k (λ z. cc) (rw e f))
    current_listed id t current (x ∷ ids) (some (u ∷ ts)) h k e f =
        rw (list_public_lem x ids (u ∷ ts) f, answer_public_some u ts)
          (ListsPublic.listed h k (rw e f) (cons_ne u ts))

  -- The public listing of a topic's subtopics answers by the topic's current document: with the
  -- current document of each subtopic that is found, in the order of the ids, and their number;
  -- with the store's error for the topic itself; with 404 where there is no current document,
  -- there are no ids, or none of the subtopics is found. Where a subtopic is found that has no
  -- current document, the handler panics.
  pub get_subtopics_public_by_id-ListsPublic :
      (id : String) → IsFresh c → ListsPublic id (get_subtopics_public_by_id storer env id c)
  unfolding get_subtopics_public_by_id from_current
  get_subtopics_public_by_id-ListsPublic id fresh = elim (Result-cases (get id)) [
    | inr (e, h) ↦ rw (h, handle_error_lem c fresh e) (ListsPublic.unknown h)
    | inl (t, h) ↦ elim (Option-cases t.current) [
      | inl k ↦ rw (h, k, handle_error_lem c fresh content_not_found) (ListsPublic.no_current h k)
      | inr (current, k) ↦ rw (h, k) (current_listed fresh id t current _ _ h k refl refl)
    ]
  ]
