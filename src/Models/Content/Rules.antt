-- ===== src/Models/Content/Rules.antt =====
-- When models/content.go lets one version of a content document follow another.
use dp_topic_api.Prelude.{◌≡◌, ◌↔◌, ◌⊎◌, inl, inr, none, arith, eq_iff, String-cases}
use dp_topic_api.Models.State.Lifecycle.{MayFollow, target_allowed_iff}
use dp_topic_api.Models.Content.{Content, validate_transition_from}

-- A new version of content is accepted over an existing one exactly when it states no state, or its
-- state names one step of the lifecycle from the state that the existing content's text stands for.
pub validate_transition_from-MayFollow :
    (t existing : Content)
    → (validate_transition_from t existing ≡ none)
      ↔ ((t.state ≡ "") ⊎ MayFollow existing.state t.state)
unfolding validate_transition_from
validate_transition_from-MayFollow t existing =
    let (to, from) = target_allowed_iff existing.state t.state in
    (
      (λ h. elim (String-cases t.state "") [ inl e ↦ inl e | inr p ↦ inr (to (ground arith)) ]),
      elim [ inl e ↦ ground (arith, eq_iff t.state "") | inr m ↦ ground (arith, from m) ],
    )
