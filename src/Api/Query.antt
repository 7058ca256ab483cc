-- ===== src/Api/Query.antt =====
-- api/content_query.go: the flags of a content query, and the items that they select.
pub mod Items
pub mod Kinds
pub mod Words
pub mod Requested
use Prim.Native.Nat.{bit_and, bit_or}
use Prim.Native.Char.{code}
use mathlib.Core.List.{reverse}
use dp_topic_api.Prelude.{
  ℕ, ◌^◌, String, Bool, true, false, ◌&&◌, ◌||◌, Option, none, some, List, [], ◌∷◌, map, nat_eq,
  leb, if◌then◌else◌,
}
use dp_topic_api.Http.{Values, lookup}
use dp_topic_api.Models.Content.{TypeLinkObject, Content, ContentResponseApi, append_link_info}

-- `1 << iota`
abbrev pub query_spotlight_flag : ℕ
query_spotlight_flag = 2 ^ 0

abbrev pub query_articles_flag : ℕ
query_articles_flag = 2 ^ 1

abbrev pub query_bulletins_flag : ℕ
query_bulletins_flag = 2 ^ 2

abbrev pub query_methodologies_flag : ℕ
query_methodologies_flag = 2 ^ 3

abbrev pub query_methodology_articles_flag : ℕ
query_methodology_articles_flag = 2 ^ 4

abbrev pub query_static_datasets_flag : ℕ
query_static_datasets_flag = 2 ^ 5

abbrev pub query_timeseries_flag : ℕ
query_timeseries_flag = 2 ^ 6

abbrev pub publications_flags : ℕ
publications_flags =
    bit_or (bit_or (bit_or query_articles_flag query_bulletins_flag) query_methodologies_flag)
      query_methodology_articles_flag

abbrev pub datasets_flags : ℕ
datasets_flags = bit_or query_static_datasets_flag query_timeseries_flag

abbrev pub query_sets : List (String × ℕ)
query_sets =
    ("spotlight", query_spotlight_flag)
    ∷ ("articles", query_articles_flag)
    ∷ ("bulletins", query_bulletins_flag)
    ∷ ("methodologies", query_methodologies_flag)
    ∷ ("methodologyarticles", query_methodology_articles_flag)
    ∷ ("staticdatasets", query_static_datasets_flag)
    ∷ ("timeseries", query_timeseries_flag)
    ∷ ("publications", publications_flags)
    ∷ ("datasets", datasets_flags)
    ∷ []

-- Without a type, every flag.
abbrev pub all_flags : ℕ
all_flags =
    bit_or
      (bit_or
        (bit_or
          (bit_or (bit_or (bit_or query_spotlight_flag query_articles_flag) query_bulletins_flag)
            query_methodologies_flag)
          query_methodology_articles_flag)
        query_static_datasets_flag)
      query_timeseries_flag

-- The code points of a text.
abbrev pub runes : String → List ℕ
runes String.[] = []
runes (String.◌∷◌ c s) = code c ∷ runes s

abbrev pub runes_eq : List ℕ → List ℕ → Bool
runes_eq [] [] = true
runes_eq (a ∷ s) (b ∷ t) = nat_eq a b && runes_eq s t
runes_eq _ _ = false

-- `unicode.IsSpace`
unfoldable pub is_space : ℕ → Bool
is_space c =
    (leb 9 c && leb c 13)
    || nat_eq c 0x20
    || nat_eq c 0x85
    || nat_eq c 0xa0
    || nat_eq c 0x1680
    || (leb 0x2000 c && leb c 0x200a)
    || nat_eq c 0x2028
    || nat_eq c 0x2029
    || nat_eq c 0x202f
    || nat_eq c 0x205f
    || nat_eq c 0x3000

unfoldable pub trim_left : List ℕ → List ℕ
unfolding is_space
trim_left [] = []
trim_left (c ∷ s) = if is_space c then trim_left s else c ∷ s

-- `strings.TrimSpace`
unfoldable pub trim_space : List ℕ → List ℕ
unfolding trim_left
trim_space s = reverse (trim_left (reverse (trim_left s)))

unfoldable pub flags_of : List (String × ℕ) → List ℕ → Option ℕ
flags_of [] s = none
flags_of ((name, flags) ∷ sets) s = if runes_eq (runes name) s then some flags else flags_of sets s

abbrev or_unrecognised : Option ℕ → ℕ
or_unrecognised none = 0
or_unrecognised (some flags) = flags

-- `lower` is `unicode.ToLower`, by which `strings.ToLower` maps each rune.
unfoldable pub flags_for : (ℕ → ℕ) → String → ℕ
unfolding trim_space flags_of
flags_for lower value = or_unrecognised (flags_of query_sets (trim_space (map lower (runes value))))

-- `none` is the panic of `valArray[0]` on an empty slice.
abbrev for_values : (ℕ → ℕ) → Option (List String) → Option ℕ
for_values lower none = some all_flags
for_values lower (some []) = none
for_values lower (some (value ∷ _)) = some (flags_for lower value)

unfoldable pub get_content_type_parameter : (ℕ → ℕ) → Values → Option ℕ
unfolding flags_for
get_content_type_parameter lower query = for_values lower (lookup "type" query)

-- `(queryTypeFlags & flag) != 0`
abbrev pub selects : ℕ → ℕ → Bool
selects flags flag = if nat_eq (bit_and flags flag) 0 then false else true

-- One `if` of `getRequiredItems`.
add_if :
    Bool
    → String
    → Option (List TypeLinkObject)
    → String
    → String
    → ContentResponseApi
    → ContentResponseApi
add_if true name links id state result = append_link_info result name links id state
add_if false name links id state result = result

abbrev pub empty_response : ContentResponseApi
empty_response = record { count = 0; offset = 0; limit = 0; total_count = 0; items = none }

abbrev add_all : ℕ → Content → String → ContentResponseApi
add_all flags content id =
    let st = content.state in
    let r0 =
      add_if (selects flags query_spotlight_flag) "spotlight" content.spotlight id st
        empty_response in
    let r1 = add_if (selects flags query_articles_flag) "articles" content.articles id st r0 in
    let r2 = add_if (selects flags query_bulletins_flag) "bulletins" content.bulletins id st r1 in
    let r3 =
      add_if (selects flags query_methodologies_flag) "methodologies" content.methodologies id st
        r2 in
    let r4 =
      add_if (selects flags query_methodology_articles_flag) "methodologyarticles"
        content.methodology_articles id st r3 in
    let r5 =
      add_if (selects flags query_static_datasets_flag) "staticdatasets" content.static_datasets id
        st r4 in
    add_if (selects flags query_timeseries_flag) "timeseries" content.timeseries id st r5

unfoldable pub get_required_items : ℕ → Content → String → ContentResponseApi
unfolding add_if
get_required_items flags content id =
    let result = add_all flags content id in record result { count = result.total_count }
