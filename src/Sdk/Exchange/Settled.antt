-- ===== src/Sdk/Exchange/Settled.antt =====
-- The endpoint that publishes a topic, on a database where the topic may have been published already:
-- api/topic_private.go.
use dp_topic_api.Prelude.{String, inl, inr, ◌≡◌, ◌∙◌, Option}
use dp_topic_api.Errors.{Error}
use dp_topic_api.Models.Topic.{Time, Topic, TopicResponse}
use dp_topic_api.Api.Action.{Run, done}
use dp_topic_api.Api.Respond.Statuses.{failed, accepted}
use dp_topic_api.Mongo.Publishing.{
  Replaced, kept, publication, Stores, not_stored, stored_in_error, now_stored,
}
use dp_topic_api.Mongo.Again.{
  Settled, next_kept, published_again, Replaced-unchanged, unchanged-Replaced, Replaced-twice,
}
use dp_topic_api.Sdk.Exchange.{store_of, opened}

module _ {S : Type 0} (stored : S → String → Option TopicResponse) (now : Time) (id : String)
    (t : TopicResponse) (next : Topic) (s : S) where
  -- The handler on a database, where publishing settles what there was at the start.
  pub data Settles : Run S (Unit {0}) → Type 0 where
    in_error :
        (e : Error) (s' : S)
        → Settled stored now id t next s s'
        → Settles (done tt (failed e (record { store = s'; writer = (opened s).writer })))
    in_full :
        (s' : S)
        → Replaced stored s id (publication now t next) s'
        → Settles (done tt (accepted (record { store = s'; writer = (opened s).writer })))

  pub Settles-Settled :
      (r : Run S (Unit {0})) → Settles r → Settled stored now id t next s (store_of r)
  Settles-Settled _ (Settles.in_error e s' settled) = settled
  Settles-Settled _ (Settles.in_full s' w) = inr w

  pub first_time :
      (s' : S) (r : Run S (Unit {0}))
      → ((k : String) → stored s' k ≡ stored s k)
      → Stores stored now id t next (opened s') r
      → Settles r
  first_time s' _ same (not_stored e s'' same') =
      Settles.in_error e s'' (inl (λ k. same' k ∙ same k))
  first_time s' _ same (stored_in_error e s'' w) =
      Settles.in_error e s'' (inr (Replaced-unchanged stored id _ s s' s'' same w))
  first_time s' _ same (now_stored s'' w) =
      Settles.in_full s'' (Replaced-unchanged stored id _ s s' s'' same w)

  pub next_time :
      (s' : S) (r : Run S (Unit {0}))
      → Replaced stored s id (publication now t next) s'
      → Stores stored now id (kept (publication now t next)) (next_kept now next) (opened s') r
      → Settles r
  next_time s' _ w (not_stored e s'' same) =
      Settles.in_error e s'' (inr (unchanged-Replaced stored id _ s s' s'' w same))
  next_time s' _ w (stored_in_error e s'' w') =
      Settles.in_error e s''
        (inr (Replaced-twice stored id _ _ s s' s'' (published_again now t next) w w'))
  next_time s' _ w (now_stored s'' w') =
      Settles.in_full s'' (Replaced-twice stored id _ _ s s' s'' (published_again now t next) w w')
