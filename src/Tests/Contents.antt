-- ===== src/Tests/Contents.antt =====
-- The lists of content and the query words, at concrete values.
use mathlib.Core.List.{Perm}
use dp_topic_api.Prelude.{
  ℕ, ◌+◌, String, ◌≡◌, ◌≢◌, ◌↔◌, refl, ap, true, false, ◌==◌, none, some, List, [], ◌∷◌, ◌++◌, map,
  arith, All, length, or_nil,
}
use dp_topic_api.Prelude.Sort.{IsSorted}
use dp_topic_api.Models.Content.{TypeLinkObject, ContentItem, append_link_info}
use dp_topic_api.Models.Content.Links.{last_title}
use dp_topic_api.Models.Content.Appended.{item_href, hrefs, IsItemFor, append_link_info-items}
use dp_topic_api.Api.Query.{empty_response, get_required_items, flags_for, selects, runes, is_space}
use dp_topic_api.Api.Query.Items.{sections, expected_items, get_required_items-sections}
use dp_topic_api.Api.Query.Kinds.{static_datasets, datasets, flag, Asks}
use dp_topic_api.Api.Query.Words.{ascii_lower, IsToLower, flags_for-Asks}
use dp_topic_api.Api.Navigation.{navigation_in}
use dp_topic_api.Api.Navigation.Labels.{english}
use dp_topic_api.Api.Navigation.Shape.{placed_items, distinct, names_items, navigation_in-placed}
use dp_topic_api.Tests.Fixtures.{link, content}

abbrev links : List TypeLinkObject
links = link "/b" "second" ∷ link "/a" "first" ∷ []

append_link_info-items_example :
    let list' = append_link_info empty_response "articles" (some links) "gdp" "published" in
    (added : List ContentItem) × (or_nil list'.items ≡ or_nil empty_response.items ++ added)
    × IsSorted (map item_href added)
    × Perm (map item_href added) (hrefs links)
    × All (IsItemFor "articles" "gdp" "published") added
    × All (λ item. item.title ≡ last_title (item_href item) "" links) added
    × (list'.total_count ≡ empty_response.total_count + length links)
    × (length links ≡ 0 → list' ≡ empty_response)
append_link_info-items_example =
    append_link_info-items empty_response "articles" "gdp" "published" (some links)

b_ne_a : ◌≢◌ {A = String} "/a" "/b"
b_ne_a h = let e : true ≡ false = ap (λ s. s == "/a") h in cc e

get_required_items-sections_example :
    let r = get_required_items 0x7f content "gdp" in
    (or_nil r.items ≡ expected_items 0x7f "gdp" "published" (sections content))
    × (r.count ≡ length (or_nil r.items))
    × (r.total_count ≡ r.count)
    × (r.total_count ≡ 0 → r.items ≡ none)
get_required_items-sections_example = get_required_items-sections 0x7f content "gdp"

ascii_lower-space : (c : ℕ) → is_space c ≡ true → ascii_lower c ≡ c
unfolding is_space
ascii_lower-space c h = ground arith

ascii_lower-IsToLower : IsToLower ascii_lower
ascii_lower-IsToLower = record { ascii = λ c h. refl; space = ascii_lower-space }

flags_for-Asks_example :
    (selects (flags_for ascii_lower " DataSets") (flag static_datasets) ≡ true)
    ↔ Asks datasets static_datasets
unfolding is_space
flags_for-Asks_example =
    flags_for-Asks ascii_lower ascii_lower-IsToLower (runes " ") (runes "DataSets") [] " DataSets"
      datasets static_datasets refl (refl, tt) tt refl

navigation_in-placed_example :
    (placed_items "" (navigation_in english).items ≡ true)
    × (distinct (names_items (navigation_in english).items) ≡ true)
navigation_in-placed_example = navigation_in-placed english
