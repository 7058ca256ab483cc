-- ===== src/Mongo/Updates.antt =====
-- The query that `createTopicUpdateQuery` of mongo/topic_store.go builds.
use Prim.Native.Char.{code}
use dp_topic_api.Prelude.{
  String, ◌≡◌, ◌⊎◌, refl, inl, inr, Bool, true, false, ◌&&◌, ◌||◌, not, Option, none, some, List,
  [], ◌∷◌, ◌++◌, map, ◌==◌, arith, nat_eq, or_nil,
}
use dp_topic_api.Prelude.Text.{concat}
use dp_topic_api.Http.{lookup}
use dp_topic_api.Models.Topic.{Time, TopicUpdate}
use dp_topic_api.Mongo.{FieldValue, text, time, texts, Query, has_items, create_topic_update_query}

-- The text begins with the other one.
starts_with : String → String → Bool
starts_with String.[] s = true
starts_with (String.◌∷◌ c p) String.[] = false
starts_with (String.◌∷◌ c p) (String.◌∷◌ d s) = nat_eq (code c) (code d) && starts_with p s

-- A path names a field inside the other path's field, or the same field.
pub inside : String → String → Bool
inside p q = p == q || starts_with (concat q ".") p

pub apart : String → List String → Bool
apart p [] = true
apart p (q ∷ qs) = not (inside p q) && not (inside q p) && apart p qs

-- No path of the list is inside another, which the database refuses in one update.
pub conflict_free : List String → Bool
conflict_free [] = true
conflict_free (p ∷ ps) = apart p ps && conflict_free ps

pub all_under : String → List String → Bool
all_under top [] = true
all_under top (p ∷ ps) = starts_with top p && all_under top ps

abbrev pub paths : Query → List String
paths q = map (λ (field : String × FieldValue). field.0) q.set ++ or_nil q.unset

-- What an update does to one field.
pub data Effect : Type 0 where
  set_to : FieldValue → Effect
  removed untouched : Effect

abbrev effect_from : Option FieldValue → Bool → Effect
effect_from (some v) gone = set_to v
effect_from none true = removed
effect_from none false = untouched

listed : String → List String → Bool
listed p [] = false
listed p (q ∷ qs) = p == q || listed p qs

pub effect : String → Query → Effect
effect path q = effect_from (lookup path q.set) (listed path (or_nil q.unset))

-- A list that is given is stored; an empty one removes the field.
abbrev pub list_effect : Option (List String) → Effect
list_effect none = removed
list_effect (some []) = removed
list_effect (some (x ∷ xs)) = set_to (texts (x ∷ xs))

given_or_not :
    (o : Option (List String))
    → ((has_items o ≡ true) × (list_effect o ≡ set_to (texts (or_nil o))))
      ⊎ ((has_items o ≡ false) × (list_effect o ≡ removed))
given_or_not none = inr (refl, refl)
given_or_not (some []) = inr (refl, refl)
given_or_not (some (x ∷ xs)) = inl (ground arith, refl)

abbrev pub link_effect : Bool → String → Effect
link_effect true url = set_to (text url)
link_effect false url = untouched

-- So it is for the queries of `UpdateState` and `UpdateReleaseDate`.
pub one_field-all_under :
    (now : Time) (v : FieldValue)
    → let query : String → Query =
        λ path. record { set = (path, v) ∷ ("next.last_updated", time now) ∷ []; unset = none } in
      (all_under "next." (paths (query "next.state")) ≡ true)
      × (all_under "next." (paths (query "next.release_date")) ≡ true)
unfolding all_under starts_with
one_field-all_under now v = (refl, refl)

module _ (now : Time) (host id : String) (t : TopicUpdate) where
  -- The query that updates a topic touches fields of its next document only, and no field that it
  -- sets or removes lies inside another, whichever of the optional lists are given.
  pub create_topic_update_query-conflict_free :
      (conflict_free (paths (create_topic_update_query now host id t)) ≡ true)
      × (all_under "next." (paths (create_topic_update_query now host id t)) ≡ true)
  unfolding create_topic_update_query conflict_free apart inside starts_with all_under
  create_topic_update_query-conflict_free = elim (given_or_not t.keywords) [
    | inl (k, _) ↦ elim (given_or_not t.subtopic_ids) [
      | inl (l, _) ↦ rw (k, l) (refl, refl)
      | inr (l, _) ↦ rw (k, l) (refl, refl)
    ]
    | inr (k, _) ↦ elim (given_or_not t.subtopic_ids) [
      | inl (l, _) ↦ rw (k, l) (refl, refl)
      | inr (l, _) ↦ rw (k, l) (refl, refl)
    ]
  ]
