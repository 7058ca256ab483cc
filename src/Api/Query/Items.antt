-- ===== src/Api/Query/Items.antt =====
-- Which items `getRequiredItems` of api/content_query.go returns, in which order, and its counts.
use dp_topic_api.Prelude.{
  ℕ, String, ◌≡◌, refl, sym, ap, Bool, true, false, Option, none, List, [], ◌∷◌, ◌++◌, append-nil,
  append_assoc, length, length-append, or_nil, arith,
}
use dp_topic_api.Models.Content.{
  TypeLinkObject, Content, ContentItem, ContentResponseApi, append_link_info,
}
use dp_topic_api.Models.Content.Links.{
  rows, append_link_info-rows, append_link_info-none, length-rows,
}
use dp_topic_api.Api.Query.{
  query_spotlight_flag, query_articles_flag, query_bulletins_flag, query_methodologies_flag,
  query_methodology_articles_flag, query_static_datasets_flag, query_timeseries_flag, selects,
  add_if, add_all, empty_response, get_required_items,
}

-- One kind of content: its flag, its type name, and the links of that kind.
pub record Section : Type 0 where
  pub flag : ℕ
  pub name : String
  pub links : Option (List TypeLinkObject)

-- The kinds in the order of the response: spotlight, publications, datasets.
abbrev pub sections : Content → List Section
sections c =
    record { flag = query_spotlight_flag; name = "spotlight"; links = c.spotlight }
    ∷ record { flag = query_articles_flag; name = "articles"; links = c.articles }
    ∷ record { flag = query_bulletins_flag; name = "bulletins"; links = c.bulletins }
    ∷ record { flag = query_methodologies_flag; name = "methodologies"; links = c.methodologies }
    ∷ record {
      flag = query_methodology_articles_flag;
      name = "methodologyarticles";
      links = c.methodology_articles;
    }
    ∷ record {
      flag = query_static_datasets_flag;
      name = "staticdatasets";
      links = c.static_datasets;
    }
    ∷ record { flag = query_timeseries_flag; name = "timeseries"; links = c.timeseries }
    ∷ []

abbrev selected_rows : Bool → String → String → String → List TypeLinkObject → List ContentItem
selected_rows true name id state links = rows name id state links
selected_rows false name id state links = []

-- The rows of the selected kinds, one kind after the other.
abbrev pub expected_items : ℕ → String → String → List Section → List ContentItem
expected_items flags id state [] = []
expected_items flags id state (s ∷ ss) =
    selected_rows (selects flags s.flag) s.name id state (or_nil s.links)
    ++ expected_items flags id state ss

-- A list of links as `AppendLinkInfo` keeps it: the total counts the items, and nil stands for none.
pub record IsCounted (r : ContentResponseApi) : Type 0 where
  pub counted : r.total_count ≡ length (or_nil r.items)
  pub nil_if_zero : r.total_count ≡ 0 → r.items ≡ none

append_link_info-IsCounted :
    (r : ContentResponseApi) (name id state : String) (links : Option (List TypeLinkObject))
    → IsCounted r
    → IsCounted (append_link_info r name links id state)
append_link_info-IsCounted r name id state links h =
    let (items, total) = append_link_info-rows r name id state links in
    record {
      counted = omega (
        arith,
        total,
        h.counted,
        ap (length {A = ContentItem}) items,
        length-append (or_nil r.items) (rows name id state (or_nil links)),
        length-rows name id state (or_nil links),
      );
      nil_if_zero = append_link_info-none r name id state links h.nil_if_zero;
    }

IsCounted-empty : IsCounted empty_response
IsCounted-empty = record { counted = refl; nil_if_zero = λ _. refl }

add_if-IsCounted :
    (b : Bool) (name : String) (links : Option (List TypeLinkObject)) (id state : String)
    (r : ContentResponseApi)
    → IsCounted r
    → IsCounted (add_if b name links id state r)
unfolding add_if
add_if-IsCounted true name links id state r h = append_link_info-IsCounted r name id state links h
add_if-IsCounted false name links id state r h = h

items-add_if :
    (b : Bool) (name : String) (links : Option (List TypeLinkObject)) (id state : String)
    (r : ContentResponseApi)
    → or_nil (add_if b name links id state r).items
      ≡ or_nil r.items ++ selected_rows b name id state (or_nil links)
unfolding add_if
items-add_if true name links id state r = (append_link_info-rows r name id state links).0
items-add_if false name links id state r = sym (append-nil (or_nil r.items))

-- The items of the response are the rows of the selected kinds, in the order spotlight,
-- publications, datasets; both counts are the number of the items, and with none of them the list
-- of items is nil.
pub get_required_items-sections :
    (flags : ℕ) (content : Content) (id : String)
    → let r = get_required_items flags content id in
      (or_nil r.items ≡ expected_items flags id content.state (sections content))
      × (r.count ≡ length (or_nil r.items))
      × (r.total_count ≡ r.count)
      × (r.total_count ≡ 0 → r.items ≡ none)
unfolding get_required_items
get_required_items-sections flags content id =
    (simp (items-add_if, append_assoc, append-nil), counts.counted, refl, counts.nil_if_zero)
  where
    counts : IsCounted (add_all flags content id)
    counts = search (add_if-IsCounted, IsCounted-empty) depth 9

abbrev pub kept : {A : Type 0} → Bool → Option A → Option A
kept true o = o
kept false o = none

-- The content without the links of the kinds that are not selected.
abbrev pub selected_content : ℕ → Content → Content
selected_content flags c = record {
  state = c.state;
  spotlight = kept (selects flags query_spotlight_flag) c.spotlight;
  articles = kept (selects flags query_articles_flag) c.articles;
  bulletins = kept (selects flags query_bulletins_flag) c.bulletins;
  methodologies = kept (selects flags query_methodologies_flag) c.methodologies;
  methodology_articles =
      kept (selects flags query_methodology_articles_flag) c.methodology_articles;
  static_datasets = kept (selects flags query_static_datasets_flag) c.static_datasets;
  timeseries = kept (selects flags query_timeseries_flag) c.timeseries;
}

add_if-kept :
    (b : Bool) (name : String) (links : Option (List TypeLinkObject)) (id state : String)
    (r : ContentResponseApi)
    → add_if b name (kept b links) id state r ≡ add_if b name links id state r
unfolding add_if
add_if-kept true name links id state r = refl
add_if-kept false name links id state r = refl

pub get_required_items-selected_content :
    (flags : ℕ) (content : Content) (id : String)
    → get_required_items flags (selected_content flags content) id
      ≡ get_required_items flags content id
unfolding get_required_items
get_required_items-selected_content flags content id = simp add_if-kept
