-- ===== src/Sdk/Call.antt =====
-- `callTopicAPI` and `closeResponseBody` of sdk/client.go. net/url, net/http and the HTTP client of
-- dp-api-clients-go are not of this repository and enter as the record `Transport`.
pub mod Outcomes
use dp_topic_api.Prelude.{
  ℕ, String, Bool, ◌||◌, not, Option, none, some, List, [], ◌∷◌, ltb, leb, if◌then◌else◌,
}
use dp_topic_api.Errors.{Error, GoError, Result, ok, err}
use dp_topic_api.Http.{Header}
use dp_topic_api.Sdk.Failure.{StatusError}
use dp_topic_api.Sdk.Options.{Headers, TokenHeaders, add_headers}

-- A request as it is handed to the HTTP client; no payload is `http.NoBody`.
pub record Outgoing : Type 0 where
  pub method : String
  pub url : String
  pub header : Header
  pub payload : Option String

-- A response body: what `io.ReadAll` and `Close` give. A read that breaks off gives the part that was
-- read with its error.
pub record Body : Type 0 where
  pub read : String × GoError
  pub close : GoError

pub record Response : Type 0 where
  pub status : ℕ
  pub header : Header
  pub body : Option Body

pub record Transport (S : Type 0) : Type 0 where
  -- `url.Parse(path)` and the `String()` of its result
  pub parse_url : String → Result String
  -- the error of `http.NewRequest(method, url, …)`
  pub new_request : String → String → GoError
  -- `Header.Add`
  pub add_header : String → String → Header → Header
  pub tokens : TokenHeaders
  -- `Client.Do`, on the state of the world
  pub send : Outgoing → S → Result Response × S

-- Why a call failed, with the error that the message quotes.
pub data Cause : Type 0 where
  bad_path : String → Error → Cause
  no_request : Error → Cause
  not_sent : Error → Cause
  unexpected_code : ℕ → Cause
  unreadable : Error → Cause
  not_closed : Error → Cause
  undecodable : String → Error → Cause
  no_language : String → Cause

abbrev pub Failure : Type 0
Failure = StatusError Cause

abbrev pub failure_of : ℕ → Cause → Failure
failure_of code cause = record { code = code; inner = some cause }

pub record ResponseInfo : Type 0 where
  pub body : Option String
  pub headers : Header
  pub status : ℕ

-- What a call returns: the response's data, or an error with what data there is.
pub data Reply : Type 0 where
  answered : ResponseInfo → Reply
  failed : Option ResponseInfo → Failure → Reply

-- With what the deferred close returned, which is dropped: `none` if there was no response to close.
pub record Called : Type 0 where
  pub reply : Reply
  pub closed : Option (Option Failure)

abbrev close_error : GoError → Option Failure
close_error none = none
close_error (some e) = some (failure_of 500 (not_closed e))

unfoldable pub close_response_body : Response → Option Failure
close_response_body resp = elim resp.body [ none ↦ none | some body ↦ close_error body.close ]

abbrev pub info_of : Response → Option String → ResponseInfo
info_of resp body = record { body = body; headers = resp.header; status = resp.status }

abbrev pub read_result : Response → String × GoError → Reply
read_result resp (text, none) = answered (info_of resp (some text))
read_result resp (text, some e) =
    failed (some (info_of resp (some text))) (failure_of resp.status (unreadable e))

abbrev pub read_body : Response → Option Body → Reply
read_body resp none = answered (info_of resp none)
read_body resp (some body) = read_result resp body.read

-- The rest of the call once a response is there.
unfoldable pub take_response : Response → Called
unfolding close_response_body
take_response resp = record {
  reply =
      if ltb resp.status 200 || leb 400 resp.status
      then failed (some (info_of resp none)) (failure_of resp.status (unexpected_code resp.status))
      else read_body resp resp.body;
  closed = some (close_response_body resp);
}

abbrev failed_call : ℕ → Cause → Called
failed_call code cause = record { reply = failed none (failure_of code cause); closed = none }

abbrev pub take_result : {S : Type 0} → Result Response × S → Called × S
take_result (ok resp, s) = (take_response resp, s)
take_result (err e, s) = (failed_call 500 (not_sent e), s)

module _ {S : Type 0} (transport : Transport S) where
  abbrev with_type : Option String → Header
  with_type none = []
  with_type (some payload) = transport.add_header "Content-type" "application/json" []

  abbrev pub request_for : String → String → Headers → Option String → Outgoing
  request_for url method headers payload = record {
    method = method;
    url = url;
    header = add_headers transport.tokens headers (with_type payload);
    payload = payload;
  }

  abbrev pub send_request : GoError → Outgoing → S → Called × S
  send_request (some e) req s = (failed_call 0 (no_request e), s)
  send_request none req s = take_result (transport.send req s)

  abbrev with_url : String → Result String → String → Headers → Option String → S → Called × S
  with_url path (err e) method headers payload s = (failed_call 0 (bad_path path e), s)
  with_url path (ok url) method headers payload s =
      send_request (transport.new_request method url) (request_for url method headers payload) s

  unfoldable pub call_topic_api : String → String → Headers → Option String → S → Called × S
  call_topic_api path method headers payload s =
      with_url path (transport.parse_url path) method headers payload s
