-- ===== src/Api/Navigation/Labels.antt =====
-- api/navigation.go: the labels of the navigation items, in English and Welsh, and the descriptions.
use dp_topic_api.Prelude.{String, Option, none, some, List, [], ◌∷◌}
use dp_topic_api.Http.{lookup}

abbrev pub english : String
english = "english"

abbrev pub welsh : String
welsh = "welsh"

-- A map from languages to texts; a missing key reads as "".
abbrev pub Texts : Type 0
Texts = List (String × String)

abbrev or_empty : Option String → String
or_empty none = ""
or_empty (some text) = text

abbrev text_in : String → Option Texts → String
text_in lang none = ""
text_in lang (some texts) = or_empty (lookup lang texts)

unfoldable pub description : Texts
description =
    (
      english,
      "A list of topical areas and their subtopics in english to generate the website navbar.",
    )
    ∷ (
      welsh,
      "A list of topical areas and their subtopics in welsh to generate the website navbar in welsh.",
    )
    ∷ []

abbrev pair : String → String → Texts
pair in_english in_welsh = (english, in_english) ∷ (welsh, in_welsh) ∷ []

unfoldable pub labels : List (String × Texts)
labels =
    (
      "business-industry-and-trade",
      pair "Business, industry and trade" "Busnes, diwydiant a masnach",
    )
    ∷ ("business", pair "Business" "Busnes")
    ∷ ("changes-to-business", pair "Changes to business" "Newidiadau i fusnesau")
    ∷ ("construction-industry", pair "Construction industry" "Diwydiant adeiladu")
    ∷ ("international-trade", pair "International trade" "Masnach ryngwladol")
    ∷ ("it-and-internet-industry", pair "IT and internet industry" "Y diwydiant TG a'r rhyngrwyd")
    ∷ (
      "manufacturing-and-production-industry",
      pair "Manufacturing and production industry" "Y diwydiant gweithgynhyrchu a chynhyrchu",
    )
    ∷ ("retail-industry", pair "Retail industry" "Y diwydiant manwethu")
    ∷ ("tourism-industry", pair "Tourism industry" "Y diwydiant twristiaeth")
    ∷ ("economy", pair "Economy" "Yr economi")
    ∷ (
      "economic-output-and-productivity",
      pair "Economic output and productivity" "Allgynnyrch economaidd a chynhyrchiant",
    )
    ∷ ("environmental-accounts", pair "Environmental accounts" "Cyfrifon amgylcheddol")
    ∷ (
      "government-public-sector-and-taxes",
      pair "Government, public sector and taxes" "Llwodraeth, y sector cyhoeddus a threthi",
    )
    ∷ (
      "gross-domestic-product-gdp",
      pair "Gross Domestic Product (GDP)" "Cynnyrch Domestig Gros (CDG)",
    )
    ∷ ("gross-value-added-gva", pair "Gross Value Added (GVA)" "Gwerth Ychwanegol Gros")
    ∷ (
      "inflation-and-price-indices",
      pair "Inflation and price indices" "Mynegeion chwyddiant a phrisiau",
    )
    ∷ (
      "investments-pensions-and-trusts",
      pair "Investments, pensions and trusts" "Buddsoddiadau, pensiynau ac ymddiriedolaethau",
    )
    ∷ ("national-accounts", pair "National accounts" "Cyfrifon gwladol")
    ∷ ("regional-accounts", pair "Regional accounts" "Cyfrifon rhanbarthol")
    ∷ (
      "employment-and-labour-market",
      pair "Employment and labour market" "Cyflogaeth a'r farchnad lafur",
    )
    ∷ ("people-in-work", pair "People in work" "Pobl mewn gwaith")
    ∷ ("people-not-in-work", pair "People not in work" "Pobl nad ydynt mewn gwaith")
    ∷ (
      "people-population-and-community",
      pair "People, population and community" "Pobl, y boblogaeth a chymunedau",
    )
    ∷ ("armed-forces-community", pair "Armed forces community" "Armed forces community")
    ∷ (
      "births-deaths-and-marriages",
      pair "Births, deaths and marriages" "Genedigaethau, marwolaethau a phriodasau",
    )
    ∷ ("crime-and-justice", pair "Crime and justice" "Troseddu a chyfiawnder")
    ∷ ("cultural-identity", pair "Cultural identity" "Hunaniaeth ddiwylliannol")
    ∷ ("education-and-childcare", pair "Education and childcare" "Addysg a gofal plant")
    ∷ ("elections", pair "Elections" "Etholiadau")
    ∷ ("health-and-social-care", pair "Health and social care" "Iechyd a gofal cymdeithasol")
    ∷ ("household-characteristics", pair "Household characteristics" "Nodweddion aelwydydd")
    ∷ ("housing", pair "Housing" "Tai")
    ∷ ("leisure-and-tourism", pair "Leisure and tourism" "Hamdden a thwristiaeth")
    ∷ (
      "personal-and-household-finances",
      pair "Personal and household finances" "Cyllid personol a chyllid aelwydydd",
    )
    ∷ ("population-and-migration", pair "Population and migration" "Poblogaeth ac ymfudo")
    ∷ ("wellbeing", pair "Well-being" "Lles")
    ∷ ("census", pair "Census" "Cyfrifiad")
    ∷ ("taking-part-in-a-survey", pair "Taking part in a survey?" "Cymryd rhan mewn arolwg?")
    ∷ []

-- `labels[key][lang]`
unfoldable pub label : String → String → String
unfolding labels
label key lang = text_in lang (lookup key labels)

-- `description[lang]`
unfoldable pub description_in : String → String
unfolding description
description_in lang = text_in lang (some description)
