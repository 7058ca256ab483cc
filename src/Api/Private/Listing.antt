-- ===== src/Api/Private/Listing.antt =====
-- `getTopicPrivateHandler` and `getSubtopicsPrivateByID` of api/topic_private.go.
use mathlib.Core.Path.{subst}
use dp_topic_api.Prelude.{
  ℕ, suc, String, ◌≡◌, ◌≢◌, refl, ap, ◌∙◌, inl, inr, false, Option, none, some, List, [], ◌∷◌, ◌++◌,
  arith, append_assoc, append-nil, length, length-append, or_nil, nat_eq, Option-cases,
}
use dp_topic_api.Errors.{Error, Result, ok, err, Result-cases, internal_server, not_found}
use dp_topic_api.Models.Topic.{Topic, TopicResponse, PrivateSubtopics}
use dp_topic_api.Store.{Storer}
use dp_topic_api.Api.Action.{Conn, Run, done}
use dp_topic_api.Api.Outcome.{IsFresh}
use dp_topic_api.Api.Respond.{private_subtopics}
use dp_topic_api.Api.Respond.Statuses.{failed, finished, handle_error_lem, finish_lem}
use dp_topic_api.Api.Env.{Env}
use dp_topic_api.Api.Private.{
  append_topic, collect_private, answer_private, list_private, from_next,
  get_subtopics_private_by_id,
}

-- The topics that are found, in the order of the ids.
abbrev kept : Result TopicResponse → List TopicResponse → List TopicResponse
kept (ok t) rest = t ∷ rest
kept (err e) rest = rest

abbrev pub found_topics : (String → Result TopicResponse) → List String → List TopicResponse
found_topics get [] = []
found_topics get (id ∷ ids) = kept (get id) (found_topics get ids)

-- A pointer to a slice as the loop fills it: nil stands for no items.
abbrev pub pointer : {A : Type 0} → List A → Option (List A)
pointer [] = none
pointer (x ∷ xs) = some (x ∷ xs)

abbrev pub listing : List TopicResponse → PrivateSubtopics
listing ts = record { total_count = length ts; private_items = pointer ts }

append_topic-listing :
    (ts : List TopicResponse) (t : TopicResponse)
    → append_topic (listing ts) t ≡ listing (ts ++ t ∷ [])
append_topic-listing [] t = ground arith
append_topic-listing (u ∷ ts) t = ground (arith, length-append {0} ts (t ∷ []))

nat_eq-suc : (n : ℕ) → nat_eq (suc n) 0 ≡ false
nat_eq-suc n = ground arith

module _ {S : Type 0} (storer : Storer S) (env : Env) (c : Conn S) where
  abbrev get : String → Result TopicResponse
  get id = storer.get_topic id c.store

  collect_private_lem :
      (ids : List String) (before : List TopicResponse)
      → collect_private storer env ids (listing before) c
        ≡ done (listing (before ++ found_topics get ids)) c
  unfolding collect_private
  collect_private_lem [] before = rw append-nil
  collect_private_lem (id ∷ ids) before = elim (Result-cases (get id)) [
    | inl (t, h) ↦
        rw (h, append_topic-listing before t)
          (collect_private_lem ids (before ++ t ∷ [])
            ∙ ap (λ ts. done (listing ts) c) (append_assoc before (t ∷ []) (found_topics get ids)))
    | inr (e, h) ↦ rw h (collect_private_lem ids before)
  ]

  -- What the listing of the subtopics of topic `id` answers.
  pub data ListsPrivate (id : String) : Run S (Unit {0}) → Type 0 where
    unknown : {e : Error} → get id ≡ err e → ListsPrivate id (done tt (failed e c))
    no_next :
        {t : TopicResponse}
        → get id ≡ ok t
        → t.next ≡ none
        → ListsPrivate id (done tt (failed internal_server c))
    no_subtopics :
        {t : TopicResponse} {next : Topic}
        → get id ≡ ok t
        → t.next ≡ some next
        → or_nil next.subtopic_ids ≡ []
        → ListsPrivate id (done tt (failed not_found c))
    none_found :
        {t : TopicResponse} {next : Topic}
        → get id ≡ ok t
        → t.next ≡ some next
        → or_nil next.subtopic_ids ≢ []
        → found_topics get (or_nil next.subtopic_ids) ≡ []
        → ListsPrivate id (done tt (failed internal_server c))
    listed :
        {t : TopicResponse} {next : Topic}
        → get id ≡ ok t
        → t.next ≡ some next
        → found_topics get (or_nil next.subtopic_ids) ≢ []
        → ListsPrivate id (
            done tt (
              finished
                (env.marshal
                  (private_subtopics (listing (found_topics get (or_nil next.subtopic_ids)))))
                c))

  module _ (fresh : IsFresh c) where
    answer_private_empty :
        answer_private storer env (listing []) c ≡ done tt (failed internal_server c)
    unfolding answer_private
    answer_private_empty = handle_error_lem c fresh internal_server

    answer_private_some :
        (t : TopicResponse) (ts : List TopicResponse)
        → answer_private storer env (listing (t ∷ ts)) c
          ≡ done tt (finished (env.marshal (private_subtopics (listing (t ∷ ts)))) c)
    unfolding answer_private
    answer_private_some t ts =
        rw (nat_eq-suc (length ts))
          (finish_lem env.marshal (private_subtopics (listing (t ∷ ts))) c fresh)

    list_private_nil : list_private storer env [] c ≡ done tt (failed not_found c)
    unfolding list_private
    list_private_nil = handle_error_lem c fresh not_found

    list_private_lem :
        (id : String) (ids : List String)
        → list_private storer env (id ∷ ids) c
          ≡ answer_private storer env (listing (found_topics get (id ∷ ids))) c
    unfolding list_private
    list_private_lem id ids = rw (collect_private_lem (id ∷ ids) [])

    next_listed :
        (id : String) (t : TopicResponse) (next : Topic) (ids : List String)
        (ts : List TopicResponse)
        → get id ≡ ok t
        → t.next ≡ some next
        → or_nil next.subtopic_ids ≡ ids
        → found_topics get ids ≡ ts
        → ListsPrivate id (list_private storer env ids c)
    next_listed id t next [] ts h k e f = rw list_private_nil (ListsPrivate.no_subtopics h k e)
    next_listed id t next (x ∷ ids) [] h k e f =
        rw (list_private_lem x ids, f, answer_private_empty)
          (ListsPrivate.none_found h k (λ z. cc) (rw e f))
    next_listed id t next (x ∷ ids) (u ∷ ts) h k e f =
        let q : found_topics get (or_nil next.subtopic_ids) ≡ u ∷ ts = rw e f in
        rw (list_private_lem x ids, f, answer_private_some u ts)
          (subst
            (λ z.
              ListsPrivate id (done tt (finished (env.marshal (private_subtopics (listing z))) c)))
            q (ListsPrivate.listed h k (λ z. cc (q, z))))

  -- The listing of a topic's subtopics answers by the topic's next document: with each subtopic
  -- that is found, in the order of the ids, and their number; with the store's error for the topic
  -- itself; with 404 where there are no ids; with 500 where there is no next document, or none of
  -- the subtopics is found.
  pub get_subtopics_private_by_id-ListsPrivate :
      (id : String) → IsFresh c → ListsPrivate id (get_subtopics_private_by_id storer env id c)
  unfolding get_subtopics_private_by_id from_next
  get_subtopics_private_by_id-ListsPrivate id fresh = elim (Result-cases (get id)) [
    | inr (e, h) ↦ rw (h, handle_error_lem c fresh e) (ListsPrivate.unknown h)
    | inl (t, h) ↦ elim (Option-cases t.next) [
      | inl k ↦ rw (h, k, handle_error_lem c fresh internal_server) (ListsPrivate.no_next h k)
      | inr (next, k) ↦ rw (h, k) (next_listed fresh id t next _ _ h k refl refl)
    ]
  ]
