-- ===== src/Models/State/Lifecycle.antt =====
-- The state machine that models/state.go encodes: created, completed, published, and round again.
use dp_topic_api.Prelude.{
  String, ◌≡◌, refl, ◌≢◌, ◌↔◌, ◌⊎◌, inl, inr, true, none, some, arith, eq_iff, String-cases,
}
use dp_topic_api.Prelude.Int.{pos, negsuc, int_eq_iff}
use dp_topic_api.Errors.{topic_invalid_state}
use dp_topic_api.Models.State.{
  State, state_created, state_published, state_completed, string, parse_state, transition_allowed,
  current_or_created, target_allowed,
}

pub data Lifecycle : Type 0 where
  created published completed : Lifecycle

abbrev pub code : Lifecycle → State
code created = state_created
code published = state_published
code completed = state_completed

abbrev pub name : Lifecycle → String
name created = "created"
name published = "published"
name completed = "completed"

-- One step of the lifecycle.
pub data Step : Lifecycle → Lifecycle → Type 0 where
  complete : Step created completed
  publish : Step completed published
  edit : Step published created

Step_allowed : {a b : Lifecycle} → Step a b → transition_allowed (code a) (code b) ≡ true
unfolding transition_allowed
Step_allowed complete = refl
Step_allowed publish = refl
Step_allowed edit = refl

-- The rows that an allowed transition can come from.
transition_allowed_inv :
    (s next : State)
    → transition_allowed s next ≡ true
    → ((s ≡ state_created) × (next ≡ state_completed))
      ⊎ ((s ≡ state_published) × (next ≡ state_created))
      ⊎ ((s ≡ state_completed) × (next ≡ state_published))
unfolding transition_allowed
transition_allowed_inv s next h = ground (
  arith,
  int_eq_iff s state_created,
  int_eq_iff s state_published,
  int_eq_iff s state_completed,
  int_eq_iff next state_created,
  int_eq_iff next state_published,
  int_eq_iff next state_completed,
)

-- `TransitionAllowed` accepts a pair of integers exactly when they are the codes of two states that
-- one step of the lifecycle joins; every other pair is refused, out-of-range codes included.
pub transition_allowed_iff :
    (s next : State)
    → (transition_allowed s next ≡ true)
      ↔ ((a : Lifecycle) × (b : Lifecycle) × (s ≡ code a) × (next ≡ code b) × Step a b)
transition_allowed_iff s next = (to, from)
  where
    to :
        transition_allowed s next ≡ true
        → (a : Lifecycle) × (b : Lifecycle) × (s ≡ code a) × (next ≡ code b) × Step a b
    to h = elim (transition_allowed_inv s next h) [
      | inl (p, q) ↦ (created, completed, p, q, complete)
      | inr (inl (p, q)) ↦ (published, created, p, q, edit)
      | inr (inr (p, q)) ↦ (completed, published, p, q, publish)
    ]

    from :
        ((a : Lifecycle) × (b : Lifecycle) × (s ≡ code a) × (next ≡ code b) × Step a b)
        → transition_allowed s next ≡ true
    from (a, b, p, q, st) = rw (p, q) (Step_allowed st)

-- `ParseState` and `String` are inverse: a text parses to a state without an error exactly when it
-- is that state's non-empty name.
pub parse_state-string :
    (str : String) (s : State) → (parse_state str ≡ (s, none)) ↔ ((string s ≡ str) × (str ≢ ""))
unfolding parse_state string
parse_state-string str s = (to, from)
  where
    to : parse_state str ≡ (s, none) → (string s ≡ str) × (str ≢ "")
    to h = ground (
      arith,
      eq_iff str "created",
      eq_iff str "published",
      eq_iff str "completed",
      eq_iff "created" "",
      eq_iff "published" "",
      eq_iff "completed" "",
      int_eq_iff s (pos 0),
      int_eq_iff s (pos 1),
      int_eq_iff s (pos 2),
    )

    from : ((string s ≡ str) × (str ≢ "")) → parse_state str ≡ (s, none)
    from (h, k) = ground (
      arith,
      eq_iff str "created",
      eq_iff str "published",
      eq_iff str "completed",
      eq_iff "created" "published",
      eq_iff "created" "completed",
      eq_iff "published" "completed",
      int_eq_iff s (pos 0),
      int_eq_iff s (pos 1),
      int_eq_iff s (pos 2),
    )

-- `ParseState` fails on every text that is no state's name, always with the same error.
pub parse_state_fails :
    (str : String)
    → ((a : Lifecycle) → str ≢ name a)
    → parse_state str ≡ (negsuc 0, some topic_invalid_state)
unfolding parse_state
parse_state_fails str h = ground (
  arith,
  h created,
  h published,
  h completed,
  eq_iff str "created",
  eq_iff str "published",
  eq_iff str "completed",
)

pub parse_state-name : (a : Lifecycle) → parse_state (name a) ≡ (code a, none)
unfolding parse_state
parse_state-name created = refl
parse_state-name published = refl
parse_state-name completed = refl

-- The text names a state.
abbrev pub Names : String → Type 0
Names str = (a : Lifecycle) × (str ≡ name a)

-- Every text names a state and parses to its code, or names none and fails to parse.
pub parse_state_cases :
    (str : String)
    → ((a : Lifecycle) × (str ≡ name a) × (parse_state str ≡ (code a, none)))
      ⊎ (¬ (Names str) × (parse_state str ≡ (negsuc 0, some topic_invalid_state)))
parse_state_cases str = elim (String-cases str "created") [
  | inl e ↦ inl (created, e, rw e (parse_state-name created))
  | inr not_created ↦ elim (String-cases str "published") [
    | inl e ↦ inl (published, e, rw e (parse_state-name published))
    | inr not_published ↦ elim (String-cases str "completed") [
      | inl e ↦ inl (completed, e, rw e (parse_state-name completed))
      | inr not_completed ↦
          let other : (a : Lifecycle) → str ≢ name a = elim [
            | created ↦ λ e. cc ((eq_iff str "created").1 e)
            | published ↦ λ e. cc ((eq_iff str "published").1 e)
            | completed ↦ λ e. cc ((eq_iff str "completed").1 e)
          ] in
          inr ((λ n. other n.0 n.1), parse_state_fails str other)
    ]
  ]
]

pub named-parse_state : (str : String) → Names str → (s : State) × (parse_state str ≡ (s, none))
named-parse_state str named = elim (parse_state_cases str) [
  | inl (a, _, p) ↦ (code a, p)
  | inr (unnamed, _) ↦ absurd (unnamed named)
]

pub unnamed-parse_state :
    (str : String) → ¬ (Names str) → parse_state str ≡ (negsuc 0, some topic_invalid_state)
unnamed-parse_state str unnamed = elim (parse_state_cases str) [
  | inl (a, e, _) ↦ absurd (unnamed (a, e))
  | inr (_, p) ↦ p
]

-- The state that a stored text stands for: an unknown text counts as created.
pub data StandsFor (str : String) : Lifecycle → Type 0 where
  named : {a : Lifecycle} → str ≡ name a → StandsFor str a
  unknown : ¬ (Names str) → StandsFor str created

Step_of_allowed : (a b : Lifecycle) → transition_allowed (code a) (code b) ≡ true → Step a b
unfolding transition_allowed
Step_of_allowed created completed h = complete
Step_of_allowed published created h = edit
Step_of_allowed completed published h = publish
Step_of_allowed _ _ h = cc

-- A text may follow a stored text.
abbrev pub MayFollow : String → String → Type 0
MayFollow stored target =
    (a : Lifecycle) × (b : Lifecycle) × StandsFor stored a × (target ≡ name b) × Step a b

target_allowed-MayFollow :
    (stored target : String)
    → target_allowed (current_or_created (parse_state stored)) (parse_state target) ≡ true
    → MayFollow stored target
target_allowed-MayFollow stored target h = elim (parse_state_cases target) [
  | inr (_, p) ↦ cc (p, h)
  | inl (b, e, p) ↦ elim (parse_state_cases stored) [
    | inl (a, e', q) ↦ (a, b, StandsFor.named e', e, Step_of_allowed a b (rw (p, q) at h))
    | inr (unnamed, q) ↦
        (created, b, StandsFor.unknown unnamed, e, Step_of_allowed created b (rw (p, q) at h))
  ]
]

code_of_StandsFor :
    {stored : String} {a : Lifecycle}
    → StandsFor stored a
    → current_or_created (parse_state stored) ≡ code a
code_of_StandsFor (StandsFor.named {a} e) = rw (e, parse_state-name a)
code_of_StandsFor {stored} (StandsFor.unknown unnamed) = elim (parse_state_cases stored) [
  | inl (a, e, _) ↦ absurd (unnamed (a, e))
  | inr (_, p) ↦ rw p
]

MayFollow-target_allowed :
    (stored target : String)
    → MayFollow stored target
    → target_allowed (current_or_created (parse_state stored)) (parse_state target) ≡ true
MayFollow-target_allowed stored target (a, b, s, e, st) =
    rw (code_of_StandsFor s, e, parse_state-name b) (Step_allowed st)

pub target_allowed_iff :
    (stored target : String)
    → (target_allowed (current_or_created (parse_state stored)) (parse_state target) ≡ true)
      ↔ MayFollow stored target
target_allowed_iff stored target =
    (target_allowed-MayFollow stored target, MayFollow-target_allowed stored target)
