-- ===== src/Sdk/Exchange/Replies.antt =====
-- What the client makes of what comes of sending a request: the replies of sdk/client.go.
use dp_topic_api.Prelude.{
  ℕ, ◌≤◌, String, ◌≡◌, refl, sym, subst, ◌∙◌, ◌⊎◌, Option, none, some, inl, inr, arith,
}
use dp_topic_api.Errors.{Error, GoError, Result, ok}
use dp_topic_api.Api.Action.{Conn}
use dp_topic_api.Sdk.Options.{Headers}
use dp_topic_api.Sdk.Call.{
  Body, Response, Transport, failure_of, unexpected_code, Reply, answered, info_of, unreadable,
  not_sent, Called, take_result, call_topic_api, request_for, take_response,
}
use dp_topic_api.Sdk.Exchange.{Reads, Delivery, joined, status_or_ok}

reply-refused :
    (resp : Response) (code : ℕ)
    → resp.status ≡ code
    → 400 ≤ code
    → (take_response resp).reply
      ≡ Reply.failed (some (info_of resp none)) (failure_of code (unexpected_code code))
unfolding take_response
reply-refused resp code e h = ground (arith, e)

reply-read :
    (resp : Response) (body : Body) (text : String)
    → resp.status ≡ 200
    → resp.body ≡ some body
    → body.read ≡ (text, none)
    → (take_response resp).reply ≡ answered (info_of resp (some text))
unfolding take_response
reply-read resp body text e b r = ground (arith, e, b, r)

reply-unread :
    (resp : Response) (body : Body) (part : String) (e : Error)
    → resp.status ≡ 200
    → resp.body ≡ some body
    → body.read ≡ (part, some e)
    → (take_response resp).reply
      ≡ Reply.failed (some (info_of resp (some part))) (failure_of 200 (unreadable e))
unfolding take_response
reply-unread resp body part e h b r = ground (arith, h, b, r)

-- What the client makes of a response with status 200 and a text.
pub data Takes (resp : Response) (text : String) : Reply → Type 0 where
  whole : Takes resp text (answered (info_of resp (some text)))
  broken_off :
      (part : String) (e : Error)
      → Takes resp text
          (Reply.failed (some (info_of resp (some part))) (failure_of 200 (unreadable e)))

reply-Takes :
    (resp : Response) (body : Body) (text : String) (r : String × GoError)
    → resp.status ≡ 200
    → resp.body ≡ some body
    → body.read ≡ r
    → Reads text r
    → Takes resp text (take_response resp).reply
reply-Takes resp body text _ e b h Reads.whole =
    subst (Takes resp text) (sym (reply-read resp body text e b h)) Takes.whole
reply-Takes resp body text _ e b h (Reads.broken_off part e') =
    subst (Takes resp text) (sym (reply-unread resp body part e' e b h)) (Takes.broken_off part e')

-- The reply of a call, for a connection that its endpoint leaves.
pub data Replies {S : Type 0} (s : S) (c : Conn S) : Reply × S → Type 0 where
  refused :
      (resp : Response)
      → resp.status ≡ status_or_ok c.writer.sent
      → 400 ≤ status_or_ok c.writer.sent
      → Replies s c (
        Reply.failed (some (info_of resp none)) (
            failure_of (status_or_ok c.writer.sent) (unexpected_code (status_or_ok c.writer.sent))),
        c.store,
      )
  taken :
      (resp : Response) (r : Reply)
      → resp.status ≡ 200
      → status_or_ok c.writer.sent ≡ 200
      → Takes resp (joined c.writer.body) r
      → Replies s c (r, c.store)
  unreached : (e : Error) → Replies s c (Reply.failed none (failure_of 500 (not_sent e)), s)
  unanswered : (e : Error) → Replies s c (Reply.failed none (failure_of 500 (not_sent e)), c.store)

pub delivery-Replies :
    {S : Type 0} (s : S) (c : Conn S) (r : Result Response × S)
    → Delivery s c r
    → (status_or_ok c.writer.sent ≡ 200) ⊎ (400 ≤ status_or_ok c.writer.sent)
    → Replies s c ((take_result r).0.reply, (take_result r).1)
delivery-Replies s c _ (Delivery.arrived resp a) (inl e) =
    Replies.taken resp _ (a.same_status ∙ e) e (
      reply-Takes resp a.body (joined c.writer.body) _ (a.same_status ∙ e) a.has_body refl
        a.same_body)
delivery-Replies s c _ (Delivery.arrived resp a) (inr h) =
    subst (λ (r : Reply). Replies s c (r, c.store))
      (sym (reply-refused resp (status_or_ok c.writer.sent) a.same_status h))
      (Replies.refused resp a.same_status h)
delivery-Replies s c _ (Delivery.unreached e) h = Replies.unreached e
delivery-Replies s c _ (Delivery.unanswered e) h = Replies.unanswered e

module _ {S : Type 0} (transport : Transport S) (path method : String) (headers : Headers)
    (payload : Option String) (s : S) (parsed : transport.parse_url path ≡ ok path)
    (accepted : transport.new_request method path ≡ none) where
  pub call_lem :
      (r : Result Response × S)
      → transport.send (request_for transport path method headers payload) s ≡ r
      → call_topic_api transport path method headers payload s ≡ take_result r
  unfolding call_topic_api
  call_lem r sent = rw (parsed, accepted, sent) refl

  pub call-Replies :
      (c : Conn S)
      → Delivery s c (transport.send (request_for transport path method headers payload) s)
      → (status_or_ok c.writer.sent ≡ 200) ⊎ (400 ≤ status_or_ok c.writer.sent)
      → let r : Called × S = call_topic_api transport path method headers payload s in
        Replies s c (r.0.reply, r.1)
  call-Replies c d h =
      subst (λ (r : Called × S). Replies s c (r.0.reply, r.1)) (sym (call_lem _ refl))
        (delivery-Replies s c _ d h)
