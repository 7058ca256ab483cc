-- ===== src/Models/Content/Links.antt =====
-- What `AppendLinkInfo` of models/content.go appends.
use mathlib.Core.Path.{fun_ext}
use dp_topic_api.Prelude.{
  ℕ, suc, nat_eq, ◌+◌, String, ◌≡◌, refl, sym, ap, ◌∙◌, false, Option, none, some, List, [], ◌∷◌,
  ◌++◌, map, ◌==◌, append-nil, append_assoc, length, length-map, or_nil, arith, eq_iff,
  if◌then◌else◌,
}
use dp_topic_api.Prelude.Sort.{sort_strings, length-sort_strings}
use dp_topic_api.Models.Content.{
  TypeLinkObject, ContentItem, ContentResponseApi, Titles, map_set, map_get, titles_from,
  content_item, append_from, append_link_info, append_item,
}

map_get-map_set :
    (k j v : String) (m : Titles) → map_get j (map_set k v m) ≡ (if k == j then v else map_get j m)
unfolding map_get map_set
map_get-map_set k j v [] = refl
map_get-map_set k j v ((i, w) ∷ m) =
    ground (arith, eq_iff k j, eq_iff i k, eq_iff i j, map_get-map_set k j v m)

-- The title that a read of the map gives: that of the last link with the href.
unfoldable pub last_title : String → String → List TypeLinkObject → String
last_title href title [] = title
last_title href title (l ∷ ls) = last_title href (if l.href == href then l.title else title) ls

map_get-titles_from :
    (href : String) (m : Titles) (ls : List TypeLinkObject)
    → map_get href (titles_from m ls) ≡ last_title href (map_get href m) ls
unfolding titles_from last_title
map_get-titles_from href m [] = refl
map_get-titles_from href m (l ∷ ls) =
    map_get-titles_from href (map_set l.href l.title m) ls
    ∙ ap (λ t. last_title href t ls) (map_get-map_set l.href href l.title m)

-- The items for one type, in the order in which they are appended.
abbrev pub rows : String → String → String → List TypeLinkObject → List ContentItem
rows type_name id state links =
    map (λ href. content_item type_name id state href (last_title href "" links))
      (sort_strings (map (λ (l : TypeLinkObject). l.href) links))

or_nil-append_item :
    (items : Option (List ContentItem)) (item : ContentItem)
    → or_nil (append_item items item) ≡ or_nil items ++ item ∷ []
or_nil-append_item none item = refl
or_nil-append_item (some items) item = refl

module _ (type_name id state : String) (title : Titles) where
  item_for : String → ContentItem
  item_for href = content_item type_name id state href (map_get href title)

  or_nil-append_from :
      (items : Option (List ContentItem)) (hrefs : List String)
      → or_nil (append_from type_name id state title items hrefs)
        ≡ or_nil items ++ map item_for hrefs
  unfolding append_from item_for
  or_nil-append_from items [] = sym (append-nil (or_nil items))
  or_nil-append_from items (href ∷ hrefs) =
      or_nil-append_from (append_item items (item_for href)) hrefs
      ∙ ap (λ z. z ++ map item_for hrefs) (or_nil-append_item items (item_for href))
      ∙ append_assoc (or_nil items) (item_for href ∷ []) (map item_for hrefs)

map_get-titles :
    (href : String) (links : List TypeLinkObject)
    → map_get href (titles_from [] links) ≡ last_title href "" links
unfolding map_get
map_get-titles href links = map_get-titles_from href [] links

map_pointwise {ℓ κ} :
    {A : Type ℓ} {B : Type κ} {f g : A → B}
    → ((a : A) → f a ≡ g a)
    → (xs : List A) → map f xs ≡ map g xs
map_pointwise h xs = rw (fun_ext h)

nat_eq-suc : (n : ℕ) → nat_eq (suc n) 0 ≡ false
nat_eq-suc n = ground arith

-- `AppendLinkInfo` appends the rows of the links, and adds their number to the total.
pub append_link_info-rows :
    (list : ContentResponseApi) (type_name id state : String) (links : Option (List TypeLinkObject))
    → (or_nil (append_link_info list type_name links id state).items
        ≡ or_nil list.items ++ rows type_name id state (or_nil links))
      × ((append_link_info list type_name links id state).total_count
          ≡ list.total_count + length (or_nil links))
unfolding append_link_info item_for
append_link_info-rows list type_name id state none = (sym (append-nil _), omega arith)
append_link_info-rows list type_name id state (some []) = (sym (append-nil _), omega arith)
append_link_info-rows list type_name id state (some (l ∷ ls)) = rw (nat_eq-suc (length ls)) (
  or_nil-append_from type_name id state (titles_from [] (l ∷ ls)) list.items
        (sort_strings (map (λ (k : TypeLinkObject). k.href) (l ∷ ls)))
      ∙ ap (λ z. or_nil list.items ++ z)
          (map_pointwise
            (λ href. ap (content_item type_name id state href) (map_get-titles href (l ∷ ls)))
            (sort_strings (map (λ (k : TypeLinkObject). k.href) (l ∷ ls)))),
  refl,
)

pub length-rows :
    (type_name id state : String) (links : List TypeLinkObject)
    → length (rows type_name id state links) ≡ length links
length-rows type_name id state links =
    length-map (sort_strings (map (λ (l : TypeLinkObject). l.href) links)) _
    ∙ length-sort_strings (map (λ (l : TypeLinkObject). l.href) links)
    ∙ length-map links _

-- A list with a total of 0 and nil items keeps both unless a link is appended.
pub append_link_info-none :
    (list : ContentResponseApi) (type_name id state : String) (links : Option (List TypeLinkObject))
    → (list.total_count ≡ 0 → list.items ≡ none)
    → (append_link_info list type_name links id state).total_count ≡ 0
    → (append_link_info list type_name links id state).items ≡ none
unfolding append_link_info
append_link_info-none list type_name id state none h e = h e
append_link_info-none list type_name id state (some []) h e = h e
append_link_info-none list type_name id state (some (l ∷ ls)) h e = ground arith
