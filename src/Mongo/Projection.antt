-- ===== src/Mongo/Projection.antt =====
-- The projection of `GetContent` of mongo/topic_store.go against the items that the handlers take
-- from the content.
use dp_topic_api.Prelude.{
  ℕ, String, ◌≡◌, refl, ap, ◌∙◌, Bool, true, false, Option, none, some, ◌&&◌, ◌||◌, List, [], ◌∷◌,
  ◌++◌, ◌==◌, arith, if◌then◌else◌,
}
use dp_topic_api.Prelude.Text.{concat}
use dp_topic_api.Errors.{Error, ok, content_not_found}
use dp_topic_api.Models.Topic.{Time}
use dp_topic_api.Models.Content.{Content, ContentResponse, ContentResponseApi}
use dp_topic_api.Api.Query.{get_required_items}
use dp_topic_api.Api.Query.Items.{kept, selected_content, get_required_items-selected_content}
use dp_topic_api.Mongo.{
  Driver, Found, found, no_document, failure, or_not_found, selected, content_select, get_content,
}

pub listed : String → List String → Bool
listed path [] = false
listed path (p ∷ ps) = path == p || listed path ps

-- One of the two versions of a content document as it comes back from the database, when a
-- projection asks for the given paths: a field that is not listed is missing.
abbrev pub projected : String → List String → Content → Content
projected version paths c = record {
  state = if listed (concat version "state") paths then c.state else "";
  spotlight = kept (listed (concat version "spotlight") paths) c.spotlight;
  articles = kept (listed (concat version "articles") paths) c.articles;
  bulletins = kept (listed (concat version "bulletins") paths) c.bulletins;
  methodologies = kept (listed (concat version "methodologies") paths) c.methodologies;
  methodology_articles =
      kept (listed (concat version "methodology_articles") paths) c.methodology_articles;
  static_datasets = kept (listed (concat version "static_datasets") paths) c.static_datasets;
  timeseries = kept (listed (concat version "timeseries") paths) c.timeseries;
}

-- The two versions.
pub data Version : Type 0 where
  next_version current_version : Version

abbrev pub prefix : Version → String
prefix next_version = "next."
prefix current_version = "current."

listed-append :
    (path : String) (ps qs : List String)
    → listed path (ps ++ qs) ≡ (listed path ps || listed path qs)
unfolding listed
listed-append path [] qs = refl
listed-append path (p ∷ ps) qs = ground (arith, listed-append path ps qs)

abbrev own : String → String → Bool
own path name = path == concat "next." name || path == concat "current." name

listed-selected :
    (path name : String) (b : Bool) → listed path (selected b name) ≡ (own path name && b)
unfolding listed
listed-selected path name true = ground arith
listed-selected path name false = ground arith

or-false : (b : Bool) → (b || false) ≡ b
or-false true = refl
or-false false = refl

projected_lem :
    (flags : ℕ) (v : Version) (c : Content)
    → projected (prefix v) (content_select flags) c ≡ selected_content flags c
unfolding content_select listed
projected_lem flags next_version c = simp (listed-append, listed-selected, or-false)
projected_lem flags current_version c = simp (listed-append, listed-selected, or-false)

version_lem :
    (flags : ℕ) (v : Version) (c : Content) (id : String)
    → get_required_items flags (projected (prefix v) (content_select flags) c) id
      ≡ get_required_items flags c id
version_lem flags v c id =
    ap (λ content. get_required_items flags content id) (projected_lem flags v c)
    ∙ get_required_items-selected_content flags c id

-- Whatever the query, the projection of `GetContent` does not list the field "id".
pub content_select-id : (flags : ℕ) → listed "id" (content_select flags) ≡ false
unfolding content_select listed
content_select-id flags = simp (listed-append, listed-selected, or-false)

abbrev each : {A B : Type 0} → (A → B) → Option A → Option B
each f none = none
each f (some a) = some (f a)

-- A whole document as it comes back: the id too is missing where it is not listed.
abbrev pub fetched : List String → ContentResponse → ContentResponse
fetched paths doc = record {
  id = if listed "id" paths then doc.id else "";
  next = each (projected "next." paths) doc.next;
  current = each (projected "current." paths) doc.current;
}

-- What is used of the driver, where `held` reads the contents that the database holds: a document
-- that is found is the one that is held, but for the fields that are not asked for.
pub record ContentLaws {S : Type 0} (held : S → String → Option ContentResponse) (driver : Driver S)
    : Type 0 where
  pub finds :
      (s : S) (id : String) (paths : List String) (d : ContentResponse)
      → driver.find_content id paths s ≡ found d
      → (doc : ContentResponse) × (held s id ≡ some doc) × (d ≡ fetched paths doc)

-- The items that a query selects from one version of a document.
abbrev pub items_of : ℕ → String → Option Content → Option ContentResponseApi
items_of flags id = each (λ c. get_required_items flags c id)

items_of-projected :
    (flags : ℕ) (v : Version) (o : Option Content) (id : String)
    → items_of flags id (each (projected (prefix v) (content_select flags)) o) ≡ items_of flags id o
items_of-projected flags v none id = refl
items_of-projected flags v (some c) id = ap some (version_lem flags v c id)

fetched_id : (flags : ℕ) (doc : ContentResponse) → (fetched (content_select flags) doc).id ≡ ""
fetched_id flags doc = rw (content_select-id flags) refl

ok_is_found :
    {A : Type 0} (missing : Error) (f : Found A) (a : A)
    → or_not_found missing f ≡ ok a
    → f ≡ found a
ok_is_found missing (found b) a h = cc (h)
ok_is_found missing no_document a h = cc (h)
ok_is_found missing (failure e) a h = cc (h)

-- What `GetContent` returns, where the driver keeps to its laws: a document that the database holds
-- under the id, with both versions giving a handler the items that the query selects from the whole
-- ones; but its id is empty, so that the items link to the topic "" whatever the topic.
pub get_content-items_of :
    {S : Type 0} (held : S → String → Option ContentResponse) (driver : Driver S)
    → ContentLaws held driver
    → (now : Time) (id : String) (flags : ℕ) (s : S) (d : ContentResponse)
    → get_content driver now id flags s ≡ ok d
    → (doc : ContentResponse) × (held s id ≡ some doc)
      × (d.id ≡ "")
      × (items_of flags d.id d.current ≡ items_of flags "" doc.current)
      × (items_of flags d.id d.next ≡ items_of flags "" doc.next)
unfolding get_content
get_content-items_of held driver laws now id flags s d h =
    let (doc, at, e) =
      laws.finds s id (content_select flags) d (ok_is_found content_not_found _ d h) in
    let no_id : d.id ≡ "" = ap (λ (r : ContentResponse). r.id) e ∙ fetched_id flags doc in
    (
      doc,
      at,
      no_id,
      ap (λ (r : ContentResponse). items_of flags r.id r.current) e
          ∙ ap (λ i. items_of flags i (fetched (content_select flags) doc).current)
              (fetched_id flags doc)
          ∙ items_of-projected flags current_version doc.current "",
      ap (λ (r : ContentResponse). items_of flags r.id r.next) e
          ∙ ap (λ i. items_of flags i (fetched (content_select flags) doc).next)
              (fetched_id flags doc)
          ∙ items_of-projected flags next_version doc.next "",
    )
