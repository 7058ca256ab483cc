-- ===== src/Sdk/Options.antt =====
-- sdk/options.go and sdk/headers.go: the languages of the navigation, and the tokens that a request
-- carries.
use dp_topic_api.Prelude.{ℕ, String, ◌||◌, ◌==◌, if◌then◌else◌, Option, none, some}
use dp_topic_api.Http.{Header}

abbrev pub lang_english : String
lang_english = "en"

abbrev pub lang_welsh : String
lang_welsh = "cy"

-- `Language.String`; `none` is the error `ErrUnrecognisedLanguage`.
unfoldable pub language_string : String → Option String
language_string lang = if lang == lang_english || lang == lang_welsh then some lang else none

pub record Options : Type 0 where
  pub offset : ℕ
  pub limit : ℕ
  pub lang : String

pub record Headers : Type 0 where
  pub service_auth_token : String
  pub user_auth_token : String

-- `AddServiceTokenHeader` and `AddFlorenceHeader` of dp-net.
pub record TokenHeaders : Type 0 where
  pub add_service_token : String → Header → Header
  pub add_florence : String → Header → Header

-- `Headers.Add`, which returns no error.
unfoldable pub add_headers : TokenHeaders → Headers → Header → Header
add_headers tokens h header =
    let header' =
      if h.service_auth_token == ""
      then header
      else tokens.add_service_token h.service_auth_token header in
    if h.user_auth_token == "" then header' else tokens.add_florence h.user_auth_token header'
