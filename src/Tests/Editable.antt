-- ===== src/Tests/Editable.antt =====
-- A database in memory that takes updates of single fields, with the laws of its driver.
use dp_topic_api.Prelude.{
  ℕ, String, ◌≡◌, refl, sym, ap, inl, inr, some-injective, ◌⊎◌, String-cases, Option, none, some,
  [], ◌==◌, eq_iff, eq_refl, eq-false, if◌then◌else◌,
}
use dp_topic_api.Errors.{ok}
use dp_topic_api.Http.{lookup}
use dp_topic_api.Models.Topic.{Topic, TopicResponse}
use dp_topic_api.Mongo.{Found, found, no_document, FieldValue, text, Query, Driver}
use dp_topic_api.Mongo.Origins.{WriteLaws}
use dp_topic_api.Mongo.Publishing.{Upserted, DriverLaws, kept}
use dp_topic_api.Mongo.Frame.{FrameLaws}
use dp_topic_api.Tests.Fixtures.{stored}
use dp_topic_api.Tests.Database.{Topics, read}

abbrev pub topics : Topics
topics id = if id == "gdp" then some (stored "gdp" []) else none

abbrev pub or_none : Option TopicResponse → Found TopicResponse
or_none none = no_document
or_none (some t) = found t

abbrev pub number : Option TopicResponse → ℕ
number none = 0
number (some t) = 1

abbrev pub text_or : String → Option FieldValue → String
text_or old (some (text new)) = new
text_or old _ = old

abbrev pub set_fields : Query → Option Topic → Option Topic
set_fields q none = none
set_fields q (some t) = some (record t {
  state = text_or t.state (lookup "next.state" q.set);
  title = text_or t.title (lookup "next.title" q.set);
})

abbrev pub edited : Query → Option TopicResponse → Option TopicResponse
edited q none = none
edited q (some t) = some (record t { next = set_fields q t.next })

abbrev pub driver : Driver Topics
driver = record {
  find_topic = λ id s. or_none (s id);
  count_topics = λ id s. ok (number (s id));
  find_content = λ id fields s. no_document;
  update_topics = λ id q s. (ok (number (s id)), λ k. if k == id then edited q (s k) else s k);
  upsert_topics = λ id t s. (ok (number (s id)), λ k. if k == id then some (kept t) else s k);
}

found_is_some : (o : Option TopicResponse) (t : TopicResponse) → or_none o ≡ found t → o ≡ some t
found_is_some none t h = cc (h)
found_is_some (some u) t h = cc (h)

edited_current :
    (q : Query) (o : Option TopicResponse) (t' : TopicResponse)
    → edited q o ≡ some t'
    → (t : TopicResponse) × (o ≡ some t) × (t'.current ≡ t.current)
edited_current q none t' h = cc (h)
edited_current q (some t) t' h =
    (t, refl, ap (λ (u : TopicResponse). u.current) (sym (some-injective _ _ h)))

driver-updates :
    (s : Topics) (id : String) (q : Query) (k : String) (t' : TopicResponse)
    → (if k == id then edited q (s k) else s k) ≡ some t'
    → (t : TopicResponse) × (s k ≡ some t) × (t'.current ≡ t.current)
driver-updates s id q k t' h = elim (String-cases k id) [
  | inl e ↦ edited_current q (s k) t' (rw ((eq_iff k id).1 e) at h)
  | inr p ↦ (t', (rw p at h), refl)
]

driver-upserts :
    (s : Topics) (id : String) (u : TopicResponse) (k : String) (t' : TopicResponse)
    → (if k == id then some (kept u) else s k) ≡ some t'
    → (s k ≡ some t') ⊎ ((k ≡ id) × (t' ≡ kept u))
driver-upserts s id u k t' h = elim (String-cases k id) [
  | inl e ↦
      let same : some (kept u) ≡ some t' = rw ((eq_iff k id).1 e) at h in
      inr (e, sym (some-injective _ _ same))
  | inr p ↦ inl (rw p at h)
]

pub driver-WriteLaws : WriteLaws read driver
driver-WriteLaws = record {
  finds = λ s id t h. found_is_some (s id) t h;
  updates = λ s id q under k t' h. driver-updates s id q k t' h;
  upserts = λ s id u k t' h. driver-upserts s id u k t' h;
}

pub driver-DriverLaws : DriverLaws read driver
driver-DriverLaws = record {
  finds = λ s id t h. inl (rw h refl);
  upserts = λ s id t current next h. rw h (
      Upserted.written
        (λ k.
          if k == id
          then some (kept (record { id = t.id; current = some current; next = some next }))
          else s k)
        (record { now_kept = rw (eq_refl id) refl; others = λ k d. rw (eq-false k id d) refl }));
}

pub driver-FrameLaws : FrameLaws read driver
driver-FrameLaws = record {
  updates_one = λ s id q k d. rw (eq-false k id d) refl;
  upserts_one = λ s id u k d. rw (eq-false k id d) refl;
}
