-- ===== src/Models/Content/Appended.antt =====
-- `AppendLinkInfo` of models/content.go against a description of the items that it appends.
use mathlib.Core.List.{Perm}
use mathlib.Core.List.Perm
use mathlib.Core.Path.{subst}
use dp_topic_api.Prelude.{
  ℕ, suc, arith, ◌+◌, String, ◌≡◌, ◌≢◌, refl, ap, ◌∙◌, Option, none, some, List, [], ◌∷◌, ◌++◌, map,
  ◌==◌, length, or_nil, All, All-mono, All-map, map-eq_of_All, map-map, map-id, eq_refl, eq-false,
  if◌then◌else◌,
}
use dp_topic_api.Prelude.Text.{concat}
use dp_topic_api.Prelude.Sort.{sort_strings, sort_strings-IsSorted, sort_strings-perm, IsSorted}
use dp_topic_api.Models.Topic.{LinkObject}
use dp_topic_api.Models.Content.{
  TypeLinkObject, ContentItem, ContentLinks, ContentResponseApi, content_item, append_link_info,
}
use dp_topic_api.Models.Content.Links.{rows, last_title, append_link_info-rows}

abbrev href_of : Option LinkObject → String
href_of none = ""
href_of (some l) = l.href

abbrev self_of : Option ContentLinks → String
self_of none = ""
self_of (some ls) = href_of ls.self

suc_ne : {n : ℕ} → suc n ≢ 0
suc_ne h = omega (arith, h)

-- The link of an item, "" if it has none.
abbrev pub item_href : ContentItem → String
item_href item = self_of item.links

abbrev pub hrefs : List TypeLinkObject → List String
hrefs = map (λ l. l.href)

-- The topic's link in an item.
abbrev pub topic_link : String → LinkObject
topic_link id = record { href = concat "/topic/" id; id = id }

-- An item of the given type and state that links to itself and to the topic.
abbrev pub IsItemFor : String → String → String → ContentItem → Type 0
IsItemFor type_name id state item =
    (item.type_name ≡ type_name)
    × (item.state ≡ state)
    × (item.links
        ≡ some (record {
          self = some (record { href = item_href item; id = "" });
          topic = some (topic_link id);
        }))

module _ (type_name id state : String) (links : List TypeLinkObject) where
  item_hrefs-rows : map item_href (rows type_name id state links) ≡ sort_strings (hrefs links)
  item_hrefs-rows =
      map-map item_href (λ href. content_item type_name id state href (last_title href "" links))
        (sort_strings (hrefs links))
      ∙ map-id (sort_strings (hrefs links))

  IsItemFor-rows : All (IsItemFor type_name id state) (rows type_name id state links)
  IsItemFor-rows =
      All-map (IsItemFor type_name id state) _ (λ href. (refl, refl, refl))
        (sort_strings (hrefs links))

append_link_info-nothing :
    (list : ContentResponseApi) (type_name id state : String) (links : Option (List TypeLinkObject))
    → length (or_nil links) ≡ 0
    → append_link_info list type_name links id state ≡ list
unfolding append_link_info
append_link_info-nothing list type_name id state none h = refl
append_link_info-nothing list type_name id state (some []) h = refl
append_link_info-nothing list type_name id state (some (l ∷ ls)) h = absurd (suc_ne h)

-- What `AppendLinkInfo` does to a list: it adds one item to its end for each link, of the given type
-- and state and linked to the topic, the items' own links being a sorted permutation of the links'
-- hrefs, and the title of an item that of the last link with its href; and it raises the total by
-- the number of links. For nil or an empty slice the list stays as it is, items that are nil
-- included.
pub append_link_info-items :
    (list : ContentResponseApi) (type_name id state : String) (links : Option (List TypeLinkObject))
    → let list' = append_link_info list type_name links id state in
      (added : List ContentItem) × (or_nil list'.items ≡ or_nil list.items ++ added)
      × IsSorted (map item_href added)
      × Perm (map item_href added) (hrefs (or_nil links))
      × All (IsItemFor type_name id state) added
      × All (λ item. item.title ≡ last_title (item_href item) "" (or_nil links)) added
      × (list'.total_count ≡ list.total_count + length (or_nil links))
      × (length (or_nil links) ≡ 0 → list' ≡ list)
append_link_info-items list type_name id state links =
    let (items, total) = append_link_info-rows list type_name id state links in
    (
      rows type_name id state (or_nil links),
      items,
      rw item_hrefs-rows (sort_strings-IsSorted (hrefs (or_nil links))),
      rw item_hrefs-rows (sort_strings-perm (hrefs (or_nil links))),
      IsItemFor-rows type_name id state (or_nil links),
      All-map _ _ (λ href. refl) (sort_strings (hrefs (or_nil links))),
      total,
      append_link_info-nothing list type_name id state links,
    )

last_title_absent :
    (href title : String) (ls : List TypeLinkObject)
    → All (λ l. l.href ≢ href) ls
    → last_title href title ls ≡ title
unfolding last_title
last_title_absent href title [] h = refl
last_title_absent href title (l ∷ ls) (p, h) =
    rw (eq-false l.href href p) (last_title_absent href title ls h)

last_title-append :
    (title : String) (before after : List TypeLinkObject) (l : TypeLinkObject)
    → All (λ k. k.href ≢ l.href) after
    → last_title l.href title (before ++ l ∷ after) ≡ l.title
unfolding last_title
last_title-append title [] after l h =
    rw (eq_refl l.href, last_title) (last_title_absent l.href l.title after h)
last_title-append title (k ∷ before) after l h =
    last_title-append (if k.href == l.href then k.title else title) before after l h

-- Where several links share an href, every item with that href has the title of the last of them.
pub append_link_info-last_title :
    (list : ContentResponseApi) (type_name id state : String) (before after : List TypeLinkObject)
    (l : TypeLinkObject)
    → All (λ k. k.href ≢ l.href) after
    → let list' = append_link_info list type_name (some (before ++ l ∷ after)) id state in
      (added : List ContentItem) × (or_nil list'.items ≡ or_nil list.items ++ added)
      × All (λ item. item_href item ≡ l.href → item.title ≡ l.title) added
append_link_info-last_title list type_name id state before after l h =
    let links = before ++ l ∷ after in
    (
      rows type_name id state links,
      (append_link_info-rows list type_name id state (some links)).0,
      All-map _ _ (λ href e. rw e (last_title-append "" before after l h))
          (sort_strings (hrefs links)),
    )

-- No two links have one href.
abbrev pub IsDistinct : List TypeLinkObject → Type 0
IsDistinct [] = Unit
IsDistinct (l ∷ ls) = All (λ k. k.href ≢ l.href) ls × IsDistinct ls

last_titles :
    (ls : List TypeLinkObject)
    → IsDistinct ls
    → All (λ l. (title : String) → last_title l.href title ls ≡ l.title) ls
unfolding last_title
last_titles [] h = tt
last_titles (l ∷ ls) (p, h) = (
  (λ title. last_title-append title [] ls l p),
  All-mono (λ k q title. q (if l.href == k.href then l.title else title)) ls (last_titles ls h),
)

abbrev pub item_pair : ContentItem → String × String
item_pair item = (item_href item, item.title)

abbrev pub link_pair : TypeLinkObject → String × String
link_pair l = (l.href, l.title)

row_pairs-perm :
    (type_name id state : String) (links : List TypeLinkObject)
    → IsDistinct links
    → Perm (map item_pair (rows type_name id state links)) (map link_pair links)
row_pairs-perm type_name id state links h =
    let titled : String → String × String = λ href. (href, last_title href "" links) in
    let same : map titled (hrefs links) ≡ map link_pair links =
      map-map titled (λ l. l.href) links
      ∙ map-eq_of_All (λ l. titled l.href) link_pair links
          (All-mono (λ l q. ap (λ (t : String). (l.href, t)) (q "")) links (last_titles links h)) in
    rw map-map (
      subst (λ z. Perm (map titled (sort_strings (hrefs links))) z) same
        (Perm.map titled (sort_strings-perm (hrefs links))))

-- Where no two links share an href, the added items hold exactly the links' hrefs and titles.
pub append_link_info-pairs :
    (list : ContentResponseApi) (type_name id state : String) (links : List TypeLinkObject)
    → IsDistinct links
    → let list' = append_link_info list type_name (some links) id state in
      (added : List ContentItem) × (or_nil list'.items ≡ or_nil list.items ++ added)
      × Perm (map item_pair added) (map link_pair links)
append_link_info-pairs list type_name id state links h = (
  rows type_name id state links,
  (append_link_info-rows list type_name id state (some links)).0,
  row_pairs-perm type_name id state links h,
)
