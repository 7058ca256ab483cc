-- ===== src/Api/Navigation/Employment.antt =====
-- api/navigation.go: the items under "Employment and labour market".
use dp_topic_api.Prelude.{String}
use dp_topic_api.Models.Navigation.{TopicNonReferential, SubtopicItems, topic, absent, item, end}
use dp_topic_api.Api.Navigation.Entry.{entry, link_to}
use dp_topic_api.Api.Navigation.Labels.{label}

unfoldable pub employment_subtopics : String → SubtopicItems
unfolding label
employment_subtopics lang =
    (item
      (topic
        (entry "People in work"
          "Employment data covering employment rates, hours of work, claimants and earnings."
          "people-in-work" (label "people-in-work" lang)
          (link_to "peopleinwork" "/topics/peopleinwork") "/employmentandlabourmarket/peopleinwork")
        absent)
      (item
        (topic
          (entry "People not in work"
            "Unemployed and economically inactive people in the UK including claimants of out-of-work benefits and the number of redundancies.\n"
            "people-not-in-work" (label "people-not-in-work" lang)
            (link_to "peoplenotinwork" "/topics/peoplenotinwork")
            "/employmentandlabourmarket/peoplenotinwork")
          absent)
        end))

unfoldable pub employment_item : String → TopicNonReferential
unfolding label employment_subtopics
employment_item lang =
    topic
      (entry "Employment and labour market"
        "People in and out of work covering employment, unemployment, types of work, earnings, working patterns and workplace disputes."
        "employment-and-labour-market" (label "employment-and-labour-market" lang)
        (link_to "employmentandlabourmarket" "/topics/employmentandlabourmarket")
        "/employmentandlabourmarket")
      (employment_subtopics lang)
