-- ===== src/Sdk/Call/Outcomes.antt =====
-- What `callTopicAPI` of sdk/client.go returns, on every branch.
use dp_topic_api.Prelude.{
  ◌≤◌, ◌<◌, ◌⊎◌, String, ◌≡◌, refl, inl, inr, ◌||◌, Option, none, some, Option-cases, Bool-cases,
  arith, ltb, leb,
}
use dp_topic_api.Errors.{Error, GoError, Result, ok, err, Result-cases}
use dp_topic_api.Sdk.Options.{Headers}
use dp_topic_api.Sdk.Call.{
  Body, Response, Transport, bad_path, no_request, not_sent, unexpected_code, unreadable,
  failure_of, info_of, Reply, answered, failed, Called, read_result, read_body, take_response,
  close_response_body, request_for, call_topic_api,
}

-- How a response is read.
pub data Reads (resp : Response) : Reply → Type 0 where
  refused :
      (resp.status < 200) ⊎ (400 ≤ resp.status)
      → Reads resp
          (failed (some (info_of resp none)) (failure_of resp.status (unexpected_code resp.status)))
  empty :
      200 ≤ resp.status
      → resp.status < 400
      → resp.body ≡ none
      → Reads resp (answered (info_of resp none))
  broken_off :
      {body : Body} {part : String} {e : Error}
      → 200 ≤ resp.status
      → resp.status < 400
      → resp.body ≡ some body
      → body.read ≡ (part, some e)
      → Reads resp
          (failed (some (info_of resp (some part))) (failure_of resp.status (unreadable e)))
  read :
      {body : Body} {text : String}
      → 200 ≤ resp.status
      → resp.status < 400
      → resp.body ≡ some body
      → body.read ≡ (text, none)
      → Reads resp (answered (info_of resp (some text)))

module _ {S : Type 0} (transport : Transport S) where
  -- How a call goes.
  pub data Goes (path method : String) (headers : Headers) (payload : Option String) (s : S)
      : Called × S → Type 0 where
    no_path :
        {e : Error}
        → transport.parse_url path ≡ err e
        → Goes path method headers payload s
            (record { reply = failed none (failure_of 0 (bad_path path e)); closed = none }, s)
    no_outgoing :
        {url : String} {e : Error}
        → transport.parse_url path ≡ ok url
        → transport.new_request method url ≡ some e
        → Goes path method headers payload s
            (record { reply = failed none (failure_of 0 (no_request e)); closed = none }, s)
    unsent :
        {url : String} {e : Error} {s' : S}
        → transport.parse_url path ≡ ok url
        → transport.new_request method url ≡ none
        → transport.send (request_for transport url method headers payload) s ≡ (err e, s')
        → Goes path method headers payload s
            (record { reply = failed none (failure_of 500 (not_sent e)); closed = none }, s')
    sent :
        {url : String} {resp : Response} {reply : Reply} {s' : S}
        → transport.parse_url path ≡ ok url
        → transport.new_request method url ≡ none
        → transport.send (request_for transport url method headers payload) s ≡ (ok resp, s')
        → Reads resp reply
        → Goes path method headers payload s
            (record { reply = reply; closed = some (close_response_body resp) }, s')

read_result-Reads :
    (resp : Response) (body : Body) (r : String × GoError)
    → 200 ≤ resp.status
    → resp.status < 400
    → resp.body ≡ some body
    → body.read ≡ r
    → Reads resp (read_result resp r)
read_result-Reads resp body (text, none) l u b h = Reads.read l u b h
read_result-Reads resp body (text, some e) l u b h = Reads.broken_off l u b h

read_body-Reads :
    (resp : Response) (o : Option Body)
    → 200 ≤ resp.status
    → resp.status < 400
    → resp.body ≡ o
    → Reads resp (read_body resp o)
read_body-Reads resp none l u b = Reads.empty l u b
read_body-Reads resp (some body) l u b = read_result-Reads resp body body.read l u b refl

take_response-Reads : (resp : Response) → Reads resp (take_response resp).reply
unfolding take_response
take_response-Reads resp = elim (Bool-cases (ltb resp.status 200 || leb 400 resp.status)) [
  | inl e ↦ rw e (Reads.refused (ground arith))
  | inr e ↦ rw e (read_body-Reads resp resp.body (ground arith) (ground arith) refl)
]

module _ {S : Type 0} (transport : Transport S) where
  sent-Goes :
      (path method : String) (headers : Headers) (payload : Option String) (s : S) (url : String)
      (r : Result Response × S)
      → transport.parse_url path ≡ ok url
      → transport.new_request method url ≡ none
      → transport.send (request_for transport url method headers payload) s ≡ r
      → Goes transport path method headers payload s
          (call_topic_api transport path method headers payload s)
  unfolding call_topic_api take_response
  sent-Goes path method headers payload s url (err e, s') h k l = rw (h, k, l) (Goes.unsent h k l)
  sent-Goes path method headers payload s url (ok resp, s') h k l =
      rw (h, k, l) (Goes.sent h k l (take_response-Reads resp))

  -- A call of the client goes one of these ways: the path or the request is refused, with code 0;
  -- the request cannot be sent, with code 500; or a response comes, and its body is closed. A status
  -- below 200 or from 400 on is an error with that code and no body, a body whose read breaks off is
  -- one with that code and the part that was read, and else the body is returned. Where the request was not sent, the world is unchanged.
  pub call_topic_api-Goes :
      (path method : String) (headers : Headers) (payload : Option String) (s : S)
      → Goes transport path method headers payload s
          (call_topic_api transport path method headers payload s)
  call_topic_api-Goes path method headers payload s =
      elim (Result-cases (transport.parse_url path)) [
        | inr (e, h) ↦ unfold call_topic_api in rw h (Goes.no_path h)
        | inl (url, h) ↦ elim (Option-cases (transport.new_request method url)) [
          | inr (e, k) ↦ unfold call_topic_api in rw (h, k) (Goes.no_outgoing h k)
          | inl k ↦ sent-Goes path method headers payload s url _ h k refl
        ]
      ]
