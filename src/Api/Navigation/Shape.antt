-- ===== src/Api/Navigation/Shape.antt =====
-- The shape of the navigation of api/navigation.go: its links, its labels and its languages.
use dp_topic_api.Prelude.{
  String, ◌≡◌, refl, Bool, true, false, ◌&&◌, ◌||◌, not, Option, none, some, List, [], ◌∷◌, ◌++◌,
  ◌==◌,
}
use dp_topic_api.Prelude.Text.{concat}
use dp_topic_api.Models.Topic.{LinkObject, TopicLinks}
use dp_topic_api.Models.Navigation.{TopicNonReferential, SubtopicItems, topic, absent, end, item}
use dp_topic_api.Api.Navigation.{navigation_in}
use dp_topic_api.Api.Navigation.Labels.{english, welsh}

-- An item with a link sits at its parent's address followed by its id, and links to its topic.
abbrev placed_link : String → String → Option LinkObject → Bool
placed_link parent uri none = false
placed_link parent uri (some l) =
    uri == concat parent (concat "/" l.id) && l.href == concat "/topics/" l.id

-- An item with no link has an address of its own.
abbrev placed_details : String → String → Option TopicLinks → Bool
placed_details parent uri none = not (uri == "")
placed_details parent uri (some links) = placed_link parent uri links.self

mutual
  pub placed : String → TopicNonReferential → Bool
  placed parent (topic d subtopics) =
      placed_details parent d.uri d.links && placed_items d.uri subtopics

  pub placed_items : String → SubtopicItems → Bool
  placed_items parent absent = true
  placed_items parent end = true
  placed_items parent (item t rest) = placed parent t && placed_items parent rest

-- Every label of the tree passes a test.
mutual
  pub labelled : (String → Bool) → TopicNonReferential → Bool
  labelled test (topic d subtopics) = test d.label && labelled_items test subtopics

  pub labelled_items : (String → Bool) → SubtopicItems → Bool
  labelled_items test absent = true
  labelled_items test end = true
  labelled_items test (item t rest) = labelled test t && labelled_items test rest

mutual
  pub names : TopicNonReferential → List String
  names (topic d subtopics) = d.name ∷ names_items subtopics

  pub names_items : SubtopicItems → List String
  names_items absent = []
  names_items end = []
  names_items (item t rest) = names t ++ names_items rest

mutual
  pub unlabelled : TopicNonReferential → TopicNonReferential
  unlabelled (topic d subtopics) =
      topic
        (record {
          description = d.description;
          label = "";
          links = d.links;
          name = d.name;
          title = d.title;
          slug = d.slug;
          uri = d.uri;
        })
        (unlabelled_items subtopics)

  pub unlabelled_items : SubtopicItems → SubtopicItems
  unlabelled_items absent = absent
  unlabelled_items end = end
  unlabelled_items (item t rest) = item (unlabelled t) (unlabelled_items rest)

pub listed : String → List String → Bool
listed name [] = false
listed name (other ∷ rest) = name == other || listed name rest

pub distinct : List String → Bool
distinct [] = true
distinct (name ∷ rest) = not (listed name rest) && distinct rest

-- The two languages that the handler asks for.
pub data Language : Type 0 where
  in_english in_welsh : Language

abbrev pub language : Language → String
language in_english = english
language in_welsh = welsh

-- In every language each item that has a link stands at its parent's address followed by the
-- link's id and links to that id's topic; an item without one has an address; and no two items of
-- the tree share a name.
pub navigation_in-placed :
    (lang : String)
    → (placed_items "" (navigation_in lang).items ≡ true)
      × (distinct (names_items (navigation_in lang).items) ≡ true)
unfolding navigation_in placed placed_items distinct listed names names_items
navigation_in-placed lang = (refl, refl)

-- In both languages every item of the tree has a label and the tree has a description.
pub navigation_in-labelled :
    (l : Language)
    → (labelled_items (λ text. not (text == "")) (navigation_in (language l)).items ≡ true)
      × (((navigation_in (language l)).description == "") ≡ false)
unfolding navigation_in labelled labelled_items
navigation_in-labelled in_english = (refl, refl)
navigation_in-labelled in_welsh = (refl, refl)

-- Two languages give trees that differ in the labels alone.
pub navigation_in-same_tree :
    (l k : String)
    → unlabelled_items (navigation_in l).items ≡ unlabelled_items (navigation_in k).items
unfolding navigation_in unlabelled unlabelled_items
navigation_in-same_tree l k = refl
