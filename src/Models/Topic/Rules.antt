-- ===== src/Models/Topic/Rules.antt =====
-- What the checks of models/topic.go accept.
use dp_topic_api.Prelude.{
  String, ◌≡◌, ◌≢◌, ◌↔◌, ◌⊎◌, inl, inr, Option, none, some, arith, eq_iff, String-cases,
  Option-cases,
}
use dp_topic_api.Errors.{GoError, topic_missing_fields, topic_invalid_state, invalid_release_date}
use dp_topic_api.Models.State.{State, parse_state}
use dp_topic_api.Models.State.Lifecycle.{
  Names, MayFollow, parse_state_cases, named-parse_state, unnamed-parse_state, target_allowed_iff,
}
use dp_topic_api.Models.Topic.{Time, Topic, TopicUpdate, validate_update, validate_transition_from}

abbrev pub IsFilled : TopicUpdate → Type 0
IsFilled t = (t.state ≢ "") × (t.description ≢ "") × (t.title ≢ "") × (t.release_date ≢ "")

-- What a check of an update has to answer: the first fault in this order.
pub data Verdict (parse_time : String → Option Time) (t : TopicUpdate) : GoError → Type 0 where
  missing : ¬ (IsFilled t) → Verdict parse_time t (some topic_missing_fields)
  bad_state : IsFilled t → ¬ (Names t.state) → Verdict parse_time t (some topic_invalid_state)
  bad_date :
      IsFilled t
      → Names t.state
      → parse_time t.release_date ≡ none
      → Verdict parse_time t (some invalid_release_date)
  valid :
      {d : Time}
      → IsFilled t
      → Names t.state
      → parse_time t.release_date ≡ some d
      → Verdict parse_time t none

-- The test of `ValidateUpdate` for an empty field.
IsFilled-or_missing :
    (parse_time : String → Option Time) (t : TopicUpdate)
    → IsFilled t ⊎ (¬ (IsFilled t) × (validate_update parse_time t ≡ some topic_missing_fields))
unfolding validate_update
IsFilled-or_missing parse_time t = elim (String-cases t.state "") [
  | inl e ↦ inr ((λ f. f.0 e), ground (arith, eq_iff t.state ""))
  | inr p ↦ elim (String-cases t.description "") [
    | inl e ↦ inr ((λ f. f.1 e), ground (arith, eq_iff t.description ""))
    | inr q ↦ elim (String-cases t.title "") [
      | inl e ↦ inr ((λ f. f.2 e), ground (arith, eq_iff t.title ""))
      | inr r ↦ elim (String-cases t.release_date "") [
        | inl e ↦ inr ((λ f. f.3 e), ground (arith, eq_iff t.release_date ""))
        | inr s ↦ inl (
          (λ e. cc ((eq_iff t.state "").1 e)),
          (λ e. cc ((eq_iff t.description "").1 e)),
          (λ e. cc ((eq_iff t.title "").1 e)),
          (λ e. cc ((eq_iff t.release_date "").1 e)),
        )
      ]
    ]
  ]
]

module _ (parse_time : String → Option Time) (t : TopicUpdate) (filled : IsFilled t) where
  filled-bad_state :
      (s : State)
      → parse_state t.state ≡ (s, some topic_invalid_state)
      → validate_update parse_time t ≡ some topic_invalid_state
  unfolding validate_update
  filled-bad_state s h = ground (
    arith,
    eq_iff t.state "",
    eq_iff t.description "",
    eq_iff t.title "",
    eq_iff t.release_date "",
  )

  filled-bad_date :
      (s : State)
      → parse_state t.state ≡ (s, none)
      → parse_time t.release_date ≡ none
      → validate_update parse_time t ≡ some invalid_release_date
  unfolding validate_update
  filled-bad_date s h k = ground (
    arith,
    eq_iff t.state "",
    eq_iff t.description "",
    eq_iff t.title "",
    eq_iff t.release_date "",
  )

  filled-valid :
      (s : State) (d : Time)
      → parse_state t.state ≡ (s, none)
      → parse_time t.release_date ≡ some d
      → validate_update parse_time t ≡ none
  unfolding validate_update
  filled-valid s d h k = ground (
    arith,
    eq_iff t.state "",
    eq_iff t.description "",
    eq_iff t.title "",
    eq_iff t.release_date "",
  )

  filled-Verdict : Verdict parse_time t (validate_update parse_time t)
  filled-Verdict = elim (parse_state_cases t.state) [
    | inr (unnamed, p) ↦ rw (filled-bad_state _ p) (Verdict.bad_state filled unnamed)
    | inl (a, named_a, p) ↦ elim (Option-cases (parse_time t.release_date)) [
      | inl q ↦ rw (filled-bad_date _ p q) (Verdict.bad_date filled (a, named_a) q)
      | inr (d, q) ↦ rw (filled-valid _ d p q) (Verdict.valid filled (a, named_a) q)
    ]
  ]

-- `ValidateUpdate` reports the first fault of an update, in this order: an empty mandatory field, a
-- state that is no state's name, a date that does not parse; and nil when there is none of them.
pub validate_update-Verdict :
    (parse_time : String → Option Time) (t : TopicUpdate)
    → Verdict parse_time t (validate_update parse_time t)
validate_update-Verdict parse_time t = elim (IsFilled-or_missing parse_time t) [
  | inl filled ↦ filled-Verdict parse_time t filled
  | inr (empty, p) ↦ rw p (Verdict.missing empty)
]

-- No update has two verdicts.
pub Verdict-validate_update :
    (parse_time : String → Option Time) (t : TopicUpdate) (v : GoError)
    → Verdict parse_time t v
    → validate_update parse_time t ≡ v
Verdict-validate_update parse_time t _ (Verdict.missing empty) =
    elim (IsFilled-or_missing parse_time t) [ inl filled ↦ absurd (empty filled) | inr (_, p) ↦ p ]
Verdict-validate_update parse_time t _ (Verdict.bad_state filled unnamed) =
    filled-bad_state parse_time t filled _ (unnamed-parse_state t.state unnamed)
Verdict-validate_update parse_time t _ (Verdict.bad_date filled named q) =
    let (s, p) = named-parse_state t.state named in filled-bad_date parse_time t filled s p q
Verdict-validate_update parse_time t _ (Verdict.valid filled named q) =
    let (s, p) = named-parse_state t.state named in filled-valid parse_time t filled s _ p q

-- A new version of a topic is accepted over an existing one exactly when it states no state, or its
-- state names one step of the lifecycle from the state that the existing topic's text stands for.
pub validate_transition_from_iff :
    (t existing : Topic)
    → (validate_transition_from t existing ≡ none)
      ↔ ((t.state ≡ "") ⊎ MayFollow existing.state t.state)
unfolding validate_transition_from
validate_transition_from_iff t existing =
    let (to, from) = target_allowed_iff existing.state t.state in
    (
      λ h. elim (String-cases t.state "") [ inl e ↦ inl e | inr p ↦ inr (to (ground arith)) ],
      elim [ inl e ↦ ground (arith, eq_iff t.state "") | inr m ↦ ground (arith, from m) ],
    )
