-- ===== src/Domain/Goal/Validity.antt =====
-- What `Validate`, `NewGoal` and `Transition` of internal/domain/goal.go promise.
use nous.Prelude.{
  String, ◌≡◌, ◌≢◌, ◌↔◌, none, List, [], ◌∷◌, arith, eq_iff, trim_space, trim_space_idem,
}
use nous.Prelude.Time.{Time}
use nous.Domain.Errors.{Uuid, ok}
use nous.Domain.Types.{Priority}
use nous.Domain.Lifecycle.{calls}
use nous.Domain.Goal.Lifecycle.{valid_iff, valid-can_transition_to}
use nous.Domain.Goal.{GoalStatus, unknown, Goal, validate, new_goal, transition, opened}

-- The fields of a record that may be stored.
pub record IsValid (c : Goal) : Type 0 where
  pub id_set : c.id ≢ 0
  pub owned : c.owner_id ≢ ""
  pub titled : c.title ≢ ""
  pub known : (s : String) → c.status ≢ unknown s

validate_sound : (c : Goal) → validate c ≡ none → IsValid c
unfolding validate
validate_sound c h = record {
  id_set = ground arith;
  owned = ground (arith, eq_iff c.owner_id "");
  titled = ground (arith, eq_iff c.title "");
  known = (valid_iff c.status).0 (ground arith);
}

validate_complete : (c : Goal) → IsValid c → validate c ≡ none
unfolding validate
validate_complete c v =
    ground (arith, eq_iff c.owner_id "", eq_iff c.title "", (valid_iff c.status).1 v.known)

-- `Validate` returns no error exactly for the records that have every field in order.
pub goal_validate_iff : (c : Goal) → (validate c ≡ none) ↔ IsValid c
goal_validate_iff c = (validate_sound c, validate_complete c)

transition-validate :
    (c : Goal) (t : GoalStatus) (now : Time)
    → validate c ≡ none
    → validate (transition c t now).0 ≡ none
unfolding validate transition
transition-validate c t now h = ground (arith, valid-can_transition_to c.status t)

-- Calls of `Transition`, refused or not, keep a record valid.
pub goal_calls-IsValid :
    (c : Goal) (ops : List (GoalStatus × Time)) → IsValid c → IsValid (calls transition c ops)
unfolding calls
goal_calls-IsValid c [] v = v
goal_calls-IsValid c ((t, now) ∷ ops) v =
    goal_calls-IsValid (transition c t now).0 ops
      (validate_sound _ (transition-validate c t now (validate_complete c v)))

-- What the constructor returns without an error is valid and holds the trimmed inputs.
pub new_goal-IsValid :
    (id : Uuid) (owner title description : String) (priority : Priority) (now : Time) {c : Goal}
    → new_goal id owner title description priority now ≡ ok c
    → IsValid c
      × (c.status ≡ opened)
      × (c.title ≡ trim_space title)
      × (trim_space c.owner_id ≡ c.owner_id)
unfolding new_goal
new_goal-IsValid id owner title description priority now {c} h = (
  validate_sound c (ground arith),
  ground arith,
  ground arith,
  ground (arith, trim_space_idem owner),
)
