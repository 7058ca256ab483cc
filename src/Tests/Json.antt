-- ===== src/Tests/Json.antt =====
-- A codec that carries one topic, and null.
use dp_topic_api.Prelude.{
  String, ◌≡◌, refl, sym, ap, Bool, true, false, ◌&&◌, Option, none, some, arith, ◌==◌,
  if◌then◌else◌, eq_iff, Bool-cases, inl, inr,
}
use dp_topic_api.Errors.{Result, ok, err, other}
use dp_topic_api.Models.Topic.{Topic}
use dp_topic_api.Api.Env.{Env}
use dp_topic_api.Api.Respond.{Value, current_topic}
use dp_topic_api.Sdk.Client.{Decoders}
use dp_topic_api.Sdk.Exchange.Fetched.{Codec, carried, zero_topic}
use dp_topic_api.Tests.Fixtures.{env}

-- The one topic that can be marshalled.
abbrev pub gdp : Topic
gdp = record zero_topic { id = "gdp"; title = "GDP"; state = "published"; slug = "gdp" }

abbrev absent : {A : Type 0} → Option A → Bool
absent none = true
absent (some a) = false

abbrev is_gdp : Topic → Bool
is_gdp t =
    t.id == "gdp"
    && (t.title == "GDP"
        && (t.state == "published"
            && (t.slug == "gdp"
                && (t.description == ""
                    && (absent t.keywords
                        && (absent t.links && (absent t.release_date && absent t.subtopic_ids)))))))

abbrev marshal : Value → Result String
marshal (current_topic none) = ok "null"
marshal (current_topic (some t)) = if is_gdp t then ok "gdp" else err (other "marshal")
marshal _ = err (other "marshal")

abbrev decode : String → Result Topic
decode text = if text == "null" then ok zero_topic else ok gdp

absent-none : {A : Type 0} (o : Option A) → absent o ≡ true → o ≡ none
absent-none none h = refl
absent-none (some a) h = ground arith

is_gdp-carried : (t : Topic) → is_gdp t ≡ true → carried (some t) ≡ gdp
is_gdp-carried t h =
    let a : t.id ≡ "gdp" = (eq_iff t.id "gdp").0 (ground arith) in
    let b : t.title ≡ "GDP" = (eq_iff t.title "GDP").0 (ground arith) in
    let c : t.state ≡ "published" = (eq_iff t.state "published").0 (ground arith) in
    let d : t.slug ≡ "gdp" = (eq_iff t.slug "gdp").0 (ground arith) in
    let e : t.description ≡ "" = (eq_iff t.description "").0 (ground arith) in
    let f : t.keywords ≡ none = absent-none t.keywords (ground arith) in
    let g : t.links ≡ none = absent-none t.links (ground arith) in
    let i : t.release_date ≡ none = absent-none t.release_date (ground arith) in
    let j : t.subtopic_ids ≡ none = absent-none t.subtopic_ids (ground arith) in
    rw (a, b, c, d, e, f, g, i, j) refl

abbrev pub codec_env : Env
codec_env = record env { marshal = marshal }

abbrev pub decoders : Decoders
decoders = record {
  decode_topic = decode;
  decode_topic_response = λ text. err (other "json");
  decode_public_subtopics = λ text. err (other "json");
  decode_private_subtopics = λ text. err (other "json");
  decode_navigation = λ text. err (other "json");
}

codec_lem :
    (o : Option Topic) (payload : String)
    → marshal (current_topic o) ≡ ok payload
    → decode payload ≡ ok (carried o)
codec_lem none payload h = let e : "null" ≡ payload = cc h in rw (← e) refl
codec_lem (some t) payload h = elim (Bool-cases (is_gdp t)) [
  | inl g ↦
      let k : (if is_gdp t then ok "gdp" else err (other "marshal")) ≡ ok payload = h in
      let e : "gdp" ≡ payload = ground arith in rw (← e) (ap ok (sym (is_gdp-carried t g)))
  | inr g ↦ ground arith
]

pub codec : Codec decoders codec_env
codec = record { reads_topic = codec_lem }
