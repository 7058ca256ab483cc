-- ===== src/Api/Navigation/Entry.antt =====
-- api/navigation.go: the shape of one literal of `getNavItems`; the slug is never set.
use dp_topic_api.Prelude.{String, Option, none, some}
use dp_topic_api.Models.Topic.{TopicLinks}
use dp_topic_api.Models.Navigation.{Details}

abbrev pub link_to : String → String → Option TopicLinks
link_to id href =
    some
      (record { content = none; self = some (record { href = href; id = id }); subtopics = none })

abbrev pub entry : String → String → String → String → Option TopicLinks → String → Details
entry title description name label links uri = record {
  description = description;
  label = label;
  links = links;
  name = name;
  title = title;
  slug = "";
  uri = uri;
}
