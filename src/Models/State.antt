-- ===== src/Models/State.antt =====
-- models/state.go: the states of a topic, their names and the transition table.
pub mod Lifecycle
use dp_topic_api.Prelude.{
  ℕ, ◌+◌, String, Bool, false, ◌||◌, Option, none, some, List, [], ◌∷◌, ◌==◌, length, if◌then◌else◌,
}
use dp_topic_api.Prelude.Int.{ℤ, pos, negsuc, int_eq, in_bounds}
use dp_topic_api.Errors.{GoError, topic_invalid_state}

-- `type State int`; the constants are by iota.
abbrev pub State : Type 0
State = ℤ

abbrev pub state_created : State
state_created = pos 0

abbrev pub state_published : State
state_published = pos 1

abbrev pub state_completed : State
state_completed = pos 2

pub record StateTransition : Type 0 where
  pub state : State
  pub name : String
  pub valid_transitions : List State

abbrev pub state_transition_table : List StateTransition
state_transition_table =
    record { state = state_created; name = "created"; valid_transitions = state_completed ∷ [] }
    ∷ record { state = state_published; name = "published"; valid_transitions = state_created ∷ [] }
    ∷ record {
      state = state_completed;
      name = "completed";
      valid_transitions = state_published ∷ [];
    }
    ∷ []

-- The loop of `String`: it does not stop at the first row that fits.
name_from : State → String → List StateTransition → String
name_from s name [] = name
name_from s name (row ∷ table) = name_from s (if int_eq s row.state then row.name else name) table

unfoldable pub string : State → String
unfolding name_from
string s = name_from s "" state_transition_table

-- The loop of `ParseState`, with its index.
parse_from : String → ℕ → List StateTransition → State × GoError
parse_from str i [] = (negsuc 0, some topic_invalid_state)
parse_from str i (row ∷ table) =
    let rest = parse_from str (i + 1) table in if str == row.name then (pos i, none) else rest

unfoldable pub parse_state : String → State × GoError
unfolding parse_from
parse_state str = parse_from str 0 state_transition_table

-- The inner loop of `TransitionAllowed`.
lists_state : State → List State → Bool
lists_state next [] = false
lists_state next (allowed ∷ rest) = int_eq next allowed || lists_state next rest

-- Its outer loop.
allowed_from : State → State → List StateTransition → Bool
allowed_from s next [] = false
allowed_from s next (row ∷ table) =
    (if int_eq s row.state then lists_state next row.valid_transitions else false)
    || allowed_from s next table

unfoldable pub transition_allowed : State → State → Bool
unfolding lists_state allowed_from
transition_allowed s next =
    if in_bounds s (length state_transition_table)
    then allowed_from s next state_transition_table
    else false

-- The two parses in `StateTransitionAllowed` of topics and of content: an error of the first means
-- `StateCreated`, an error of the second `false`.
abbrev pub current_or_created : State × GoError → State
current_or_created (s, none) = s
current_or_created (_, some _) = state_created

abbrev pub target_allowed : State → State × GoError → Bool
target_allowed current (_, some _) = false
target_allowed current (target, none) = transition_allowed current target
