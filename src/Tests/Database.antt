-- ===== src/Tests/Database.antt =====
-- The store of mongo/topic_store.go over a driver in memory.
use dp_topic_api.Prelude.{
  List, ℕ, String, ◌≡◌, refl, inl, false, Option, none, some, [], ◌∷◌, ◌==◌, eq_refl, eq-false,
  if◌then◌else◌,
}
use dp_topic_api.Errors.{ok, err, other}
use dp_topic_api.Http.{Request, fresh}
use dp_topic_api.Models.Topic.{Time, TopicResponse}
use dp_topic_api.Api.Action.{Conn}
use dp_topic_api.Api.Private.{put_topic_state_private_handler}
use dp_topic_api.Mongo.{
  Found, found, no_document, Driver, content_select, mongo_storer, get_content,
}
use dp_topic_api.Mongo.Publishing.{Upserted, kept, DriverLaws, Stores, put_topic_state-Stores}
use dp_topic_api.Mongo.Projection.{fetched, items_of, ContentLaws, get_content-items_of}
use dp_topic_api.Models.Content.{ContentResponse}
use dp_topic_api.Tests.Fixtures.{topic, stored, content, env, request}

abbrev pub Topics : Type 0
Topics = String → Option TopicResponse

abbrev topics : Topics
topics id = if id == "gdp" then some (stored "gdp" []) else none

abbrev or_none : Option TopicResponse → Found TopicResponse
or_none none = no_document
or_none (some t) = found t

abbrev number : Option TopicResponse → ℕ
number none = 0
number (some t) = 1

abbrev written : String → TopicResponse → Topics → Topics
written id t s k = if k == id then some (kept t) else s k

-- Updates of single fields fail here.
abbrev pub driver : Driver Topics
driver = record {
  find_topic = λ id s. or_none (s id);
  count_topics = λ id s. ok (number (s id));
  find_content = λ id fields s. no_document;
  update_topics = λ id query s. (err (other "read only"), s);
  upsert_topics = λ id t s. (ok (number (s id)), written id t s);
}

abbrev pub read : Topics → String → Option TopicResponse
read s id = s id

pub driver_laws : DriverLaws read driver
driver_laws = record {
  finds = λ s id t h. inl (rw h refl);
  upserts = λ s id t current next h. rw h (
      Upserted.written
        (written id (record { id = t.id; current = some current; next = some next }) s)
        (record { now_kept = rw (eq_refl id) refl; others = λ k d. rw (eq-false k id d) refl }));
}

abbrev pub clock : Time
clock = record { nanos = 9 }

abbrev conn : Conn Topics
conn = record { store = topics; writer = fresh false }

abbrev publish_gdp : Request
publish_gdp = request (("id", "gdp") ∷ ("state", "published") ∷ []) [] ""

put_topic_state-Stores_example :
    Stores read clock "gdp"
      (stored "gdp" [])
      (topic "gdp" "completed" [])
      conn
      (put_topic_state_private_handler (mongo_storer driver clock) env publish_gdp conn)
put_topic_state-Stores_example =
    put_topic_state-Stores read driver clock driver_laws env publish_gdp conn (stored "gdp" [])
      (topic "gdp" "completed" []) refl refl refl refl

abbrev whole : ContentResponse
whole = record { id = "gdp"; next = some content; current = some content }

abbrev contents : String → Option ContentResponse
contents id = if id == "gdp" then some whole else none

abbrev asked_for : List String → Option ContentResponse → Found ContentResponse
asked_for paths none = no_document
asked_for paths (some doc) = found (fetched paths doc)

abbrev content_driver : Driver Topics
content_driver = record driver { find_content = λ id paths s. asked_for paths (contents id) }

asked_for-finds :
    (paths : List String) (o : Option ContentResponse) (d : ContentResponse)
    → asked_for paths o ≡ found d
    → (doc : ContentResponse) × (o ≡ some doc) × (d ≡ fetched paths doc)
asked_for-finds paths none d h = cc (h)
asked_for-finds paths (some doc) d h = (doc, refl, cc (h))

content_laws : ContentLaws (λ (s : Topics) id. contents id) content_driver
content_laws = record { finds = λ s id paths d h. asked_for-finds paths (contents id) d h }

get_content-items_of_example :
    let d = fetched (content_select 2) whole in
    (doc : ContentResponse) × (contents "gdp" ≡ some doc)
    × (d.id ≡ "")
    × (items_of 2 d.id d.current ≡ items_of 2 "" doc.current)
    × (items_of 2 d.id d.next ≡ items_of 2 "" doc.next)
unfolding get_content
get_content-items_of_example =
    get_content-items_of (λ (s : Topics) id. contents id) content_driver content_laws clock "gdp" 2
      topics (fetched (content_select 2) whole) refl
