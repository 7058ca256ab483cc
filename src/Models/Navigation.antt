-- ===== src/Models/Navigation.antt =====
-- models/navigation.go: the tree of topics for site navigation.
use dp_topic_api.Prelude.{String, Option}
use dp_topic_api.Models.Topic.{TopicLinks}

-- The fields of `TopicNonReferential` other than its subtopics.
pub record Details : Type 0 where
  pub description : String
  pub label : String
  pub links : Option TopicLinks
  pub name : String
  pub title : String
  pub slug : String
  pub uri : String

-- `SubtopicItems` is nil (`absent`) or points to a slice.
mutual
  pub data TopicNonReferential : Type 0 where
    topic : Details → SubtopicItems → TopicNonReferential

  pub data SubtopicItems : Type 0 where
    absent : SubtopicItems
    end : SubtopicItems
    item : TopicNonReferential → SubtopicItems → SubtopicItems

-- `Items` is the same pointer to a slice, at the root.
pub record Navigation : Type 0 where
  pub description : String
  pub links : Option TopicLinks
  pub items : SubtopicItems
