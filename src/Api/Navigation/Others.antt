-- ===== src/Api/Navigation/Others.antt =====
-- api/navigation.go: the items with no subtopics.
use dp_topic_api.Prelude.{String, none}
use dp_topic_api.Models.Navigation.{TopicNonReferential, topic, absent}
use dp_topic_api.Api.Navigation.Entry.{entry, link_to}
use dp_topic_api.Api.Navigation.Labels.{label}

unfoldable pub census_item : String → TopicNonReferential
unfolding label
census_item lang =
    topic
      (entry "Census" "" "census" (label "census" lang) (link_to "census" "/topics/census")
        "/census")
      absent

unfoldable pub survey_item : String → TopicNonReferential
unfolding label
survey_item lang =
    topic
      (entry "Survey" "" "taking-part-in-a-survey" (label "taking-part-in-a-survey" lang) none
        "/surveys")
      absent
