-- ===== src/Models/Content.antt =====
-- models/content.go: content documents, their checks, and the list of links that the API returns.
pub mod Links
pub mod Appended
pub mod Rules
use dp_topic_api.Prelude.{
  ℕ, ◌+◌, String, Bool, Option, none, some, List, [], ◌∷◌, ◌++◌, map, ◌==◌, length, nat_eq,
  if◌then◌else◌,
}
use dp_topic_api.Prelude.Text.{concat}
use dp_topic_api.Prelude.Sort.{sort_strings}
use dp_topic_api.Errors.{GoError, topic_invalid_state, topic_state_transition_not_allowed}
use dp_topic_api.Models.State.{parse_state, current_or_created, target_allowed}
use dp_topic_api.Models.Topic.{LinkObject}

pub record TypeLinkObject : Type 0 where
  pub href : String
  pub title : String

pub record Content : Type 0 where
  pub state : String
  pub spotlight : Option (List TypeLinkObject)
  pub articles : Option (List TypeLinkObject)
  pub bulletins : Option (List TypeLinkObject)
  pub methodologies : Option (List TypeLinkObject)
  pub methodology_articles : Option (List TypeLinkObject)
  pub static_datasets : Option (List TypeLinkObject)
  pub timeseries : Option (List TypeLinkObject)

pub record ContentResponse : Type 0 where
  pub id : String
  pub next : Option Content
  pub current : Option Content

pub record ContentLinks : Type 0 where
  pub self : Option LinkObject
  pub topic : Option LinkObject

pub record ContentItem : Type 0 where
  pub title : String
  pub type_name : String
  pub links : Option ContentLinks
  pub state : String

pub record ContentResponseApi : Type 0 where
  pub count : ℕ
  pub offset : ℕ
  pub limit : ℕ
  pub total_count : ℕ
  pub items : Option (List ContentItem)

pub record PrivateContentResponseApi : Type 0 where
  pub next : Option ContentResponseApi
  pub current : Option ContentResponseApi

-- `Content.Validate`
pub validate : Content → GoError
validate t = elim (parse_state t.state).1 [ some _ ↦ some topic_invalid_state | none ↦ none ]

unfoldable pub state_transition_allowed : Content → String → Bool
state_transition_allowed t target =
    target_allowed (current_or_created (parse_state t.state)) (parse_state target)

unfoldable pub validate_transition_from : Content → Content → GoError
unfolding state_transition_allowed
validate_transition_from t existing =
    if t.state == ""
    then none
    else if state_transition_allowed existing t.state
    then none
    else some topic_state_transition_not_allowed

-- Go's `map[string]string`: a write, and a read that gives "" for a missing key.
abbrev pub Titles : Type 0
Titles = List (String × String)

map_set : String → String → Titles → Titles
map_set k v [] = (k, v) ∷ []
map_set k v ((j, w) ∷ m) = if j == k then (k, v) ∷ m else (j, w) ∷ map_set k v m

map_get : String → Titles → String
map_get k [] = ""
map_get k ((j, v) ∷ m) = if j == k then v else map_get k m

-- The first loop of `AppendLinkInfo`, over the map.
titles_from : Titles → List TypeLinkObject → Titles
unfolding map_set
titles_from title [] = title
titles_from title (field ∷ fields) = titles_from (map_set field.href field.title title) fields

abbrev pub content_item : String → String → String → String → String → ContentItem
content_item type_name id state href title = record {
  title = title;
  type_name = type_name;
  links = some (record {
    self = some (record { href = href; id = "" });
    topic = some (record { href = concat "/topic/" id; id = id });
  });
  state = state;
}

abbrev append_item : Option (List ContentItem) → ContentItem → Option (List ContentItem)
append_item none item = some (item ∷ [])
append_item (some items) item = some (items ++ item ∷ [])

-- Its second loop, over the sorted hrefs.
append_from :
    String
    → String
    → String
    → Titles
    → Option (List ContentItem)
    → List String
    → Option (List ContentItem)
append_from type_name id state title items [] = items
append_from type_name id state title items (href ∷ hrefs) =
    append_from type_name id state title
      (append_item items (content_item type_name id state href (map_get href title))) hrefs

-- What `AppendLinkInfo` does past its two early returns.
abbrev append_links :
    ContentResponseApi → String → List TypeLinkObject → String → String → ContentResponseApi
append_links list type_name links id state =
    let title = titles_from [] links in
    let hrefs = sort_strings (map (λ (l : TypeLinkObject). l.href) links) in
    record list {
      items = append_from type_name id state title list.items hrefs;
      total_count = list.total_count + length links;
    }

unfoldable pub append_link_info :
    ContentResponseApi
    → String
    → Option (List TypeLinkObject)
    → String
    → String
    → ContentResponseApi
unfolding map_get titles_from append_from sort_strings
append_link_info list type_name none id state = list
append_link_info list type_name (some links) id state =
    if nat_eq (length links) 0 then list else append_links list type_name links id state
