-- ===== src/Mongo/Again.antt =====
-- A topic that is published again with what the database then holds: mongo/topic_store.go.
use Prim.Native.Nat.{◌/◌}
use dp_topic_api.Prelude.{◌*◌, String, ◌≡◌, ◌⊎◌, refl, ap, ◌∙◌, arith, Option, none, some}
use dp_topic_api.Models.Topic.{Time, Topic, TopicResponse}
use dp_topic_api.Mongo.Publishing.{in_milliseconds, kept, publication, Replaced}

in_milliseconds_twice : (o : Option Time) → in_milliseconds (in_milliseconds o) ≡ in_milliseconds o
in_milliseconds_twice none = refl
in_milliseconds_twice (some time) =
    let whole : time.nanos / 1000000 * 1000000 / 1000000 ≡ time.nanos / 1000000 = omega arith in
    rw whole refl

-- The next document of a publication as the database keeps it.
abbrev pub next_kept : Time → Topic → Topic
next_kept now next = record next {
  state = "published";
  last_updated = in_milliseconds (some now);
  release_date = in_milliseconds next.release_date;
}

pub published_again :
    (now : Time) (t : TopicResponse) (next : Topic)
    → kept (publication now (kept (publication now t next)) (next_kept now next))
      ≡ kept (publication now t next)
published_again now t next = rw (in_milliseconds_twice next.release_date) refl

module _ {S : Type 0} (stored : S → String → Option TopicResponse) where
  -- Nothing has changed in the database, or the publication is stored.
  abbrev pub Settled : Time → String → TopicResponse → Topic → S → S → Type 0
  Settled now id t next s s' =
      ((k : String) → stored s' k ≡ stored s k) ⊎ Replaced stored s id (publication now t next) s'

  pub Replaced-unchanged :
      (id : String) (u : TopicResponse) (s s' s'' : S)
      → ((k : String) → stored s' k ≡ stored s k)
      → Replaced stored s' id u s''
      → Replaced stored s id u s''
  Replaced-unchanged id u s s' s'' same w = record {
    now_kept = w.now_kept;
    others = λ k d. w.others k d ∙ same k;
  }

  pub unchanged-Replaced :
      (id : String) (u : TopicResponse) (s s' s'' : S)
      → Replaced stored s id u s'
      → ((k : String) → stored s'' k ≡ stored s' k)
      → Replaced stored s id u s''
  unchanged-Replaced id u s s' s'' w same = record {
    now_kept = same id ∙ w.now_kept;
    others = λ k d. same k ∙ w.others k d;
  }

  pub Replaced-twice :
      (id : String) (u v : TopicResponse) (s s' s'' : S)
      → kept v ≡ kept u
      → Replaced stored s id u s'
      → Replaced stored s' id v s''
      → Replaced stored s id u s''
  Replaced-twice id u v s s' s'' e w w' = record {
    now_kept = w'.now_kept ∙ ap some e;
    others = λ k d. w'.others k d ∙ w.others k d;
  }
