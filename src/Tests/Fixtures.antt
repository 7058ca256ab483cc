-- ===== src/Tests/Fixtures.antt =====
-- A store in memory, an environment, requests and documents.
use dp_topic_api.Prelude.{
  String, refl, arith, Bool, true, false, Option, none, some, List, [], ◌∷◌, ◌==◌, if◌then◌else◌,
}
use dp_topic_api.Errors.{GoError, Result, ok, err, topic_not_found, content_not_found}
use dp_topic_api.Http.{Request, write_header, Values, lookup, fresh}
use dp_topic_api.Models.Topic.{
  Time, Topic, TopicResponse, TopicUpdate, Decoded, eof, malformed, decoded,
}
use dp_topic_api.Models.Content.{TypeLinkObject, Content}
use dp_topic_api.Store.{Storer}
use dp_topic_api.Api.Action.{Conn, respond}
use dp_topic_api.Api.Action.Rules.{KeepsStore-respond}
use dp_topic_api.Api.Action.Replies.{SendsResponse-write_header}
use dp_topic_api.Api.Env.{Env}
use dp_topic_api.Api.Routes.{Auth, AuthLaws, IsCheck, Handler}

abbrev pub topic : String → String → List String → Topic
topic id state subtopics = record {
  id = id;
  description = "about";
  keywords = none;
  last_updated = none;
  links = none;
  release_date = none;
  state = state;
  subtopic_ids = some subtopics;
  title = id;
  slug = id;
}

-- A topic of which both versions are alike.
abbrev pub stored : String → List String → TopicResponse
stored id subtopics = record {
  id = id;
  current = some (topic id "published" subtopics);
  next = some (topic id "completed" subtopics);
}

abbrev pub Documents : Type 0
Documents = List (String × TopicResponse)

-- "draft" was never published.
abbrev pub documents : Documents
documents =
    ("topic_root", stored "topic_root" ("economy" ∷ "draft" ∷ []))
    ∷ ("economy", stored "economy" ("gdp" ∷ "lost" ∷ []))
    ∷ ("gdp", stored "gdp" [])
    ∷ ("draft", record { id = "draft"; current = none; next = some (topic "draft" "created" []) })
    ∷ []

abbrev found : Option TopicResponse → Result TopicResponse
found none = err topic_not_found
found (some t) = ok t

abbrev missing : Option TopicResponse → GoError
missing none = some topic_not_found
missing (some _) = none

abbrev edit : (Topic → Topic) → Option Topic → Option Topic
edit f none = none
edit f (some t) = some (f t)

-- A change of the next version of one topic.
abbrev change : String → (Topic → Topic) → Documents → GoError × Documents
change id f [] = (some topic_not_found, [])
change id f ((k, t) ∷ rest) =
    if k == id
    then (none, (k, record t { next = edit f t.next }) ∷ rest)
    else ((change id f rest).0, (k, t) ∷ (change id f rest).1)

abbrev replace : String → TopicResponse → Documents → GoError × Documents
replace id t [] = (some topic_not_found, [])
replace id t ((k, u) ∷ rest) =
    if k == id
    then (none, (k, t) ∷ rest)
    else ((replace id t rest).0, (k, u) ∷ (replace id t rest).1)

abbrev pub link : String → String → TypeLinkObject
link href title = record { href = href; title = title }

abbrev pub content : Content
content = record {
  state = "published";
  spotlight = none;
  articles = some (link "/b" "second" ∷ link "/a" "first" ∷ []);
  bulletins = some [];
  methodologies = none;
  methodology_articles = none;
  static_datasets = some (link "/d" "data" ∷ []);
  timeseries = none;
}

abbrev pub storer : Storer Documents
storer = record {
  get_topic = λ id s. found (lookup id s);
  check_topic_exists = λ id s. missing (lookup id s);
  get_content = λ id flags s.
      if id == "economy"
      then ok (record { id = ""; next = some content; current = some content })
      else err content_not_found;
  update_release_date = λ id date s. change id (λ t. record t { release_date = some date }) s;
  update_state = λ id state s. change id (λ t. record t { state = state }) s;
  upsert_topic = λ id t s. some (replace id t s);
  update_topic = λ host id u s.
      change id (λ t. record t { state = u.state; title = u.title; description = u.description }) s;
}

abbrev pub full_update : TopicUpdate
full_update = record {
  description = "about";
  keywords = none;
  release_date = "2022-05-22T09:21:45Z";
  state = "published";
  subtopic_ids = none;
  title = "GDP";
  slug = "gdp";
}

abbrev decode : {A : Type 0} → A → String → Decoded A
decode a body = if body == "" then eof else if body == "{}" then decoded a else malformed

abbrev pub parse_time : String → Option Time
parse_time text = if text == "2022-05-22T09:21:45Z" then some (record { nanos = 7 }) else none

abbrev pub env : Env
env = record {
  marshal = λ _. ok "{}";
  decode_release = λ body. decode (record { release_date = "2022-05-22T09:21:45Z" }) body;
  decode_update = λ body. decode full_update body;
  parse_time = parse_time;
  lower = λ c. c;
  topic_api_url = "http://localhost:25300";
  navigation_cache_max_age = "1800";
}

abbrev pub request : List (String × String) → Values → String → Request
request vars query body = record {
  method = "GET";
  path = "/topics";
  vars = vars;
  query = query;
  header = [];
  body = body;
}

abbrev pub conn : Conn Documents
conn = record { store = documents; writer = fresh false }

-- Checks that admit the callers who send a header, and answer all others with 401.
abbrev pub admits : Request → Bool
admits req = elim req.header [ [] ↦ false | _ ∷ _ ↦ true ]

abbrev check : {S : Type 0} → Handler S → Handler S
check handler req = if admits req then handler req else respond (write_header 401)

abbrev pub auth : {S : Type 0} → Auth S
auth = record { check_identity = check; require = λ required. check }

pub check-IsCheck : {S : Type 0} → IsCheck (check {S = S}) admits
check-IsCheck = record {
  passes = λ handler req c h. rw h refl;
  keeps = λ handler req c h. rw h ((KeepsStore-respond (write_header 401)).at c);
  answers = λ handler req c h. rw h ((SendsResponse-write_header 401 (omega arith)).at c);
}

unfoldable pub auth_laws : {S : Type 0} → AuthLaws (auth {S = S})
auth_laws = record {
  identified = admits;
  permitted = λ required. admits;
  identity = check-IsCheck;
  permission = λ required. check-IsCheck;
}
