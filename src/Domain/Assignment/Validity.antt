-- ===== src/Domain/Assignment/Validity.antt =====
-- What `Validate`, `NewAssignment` and `Transition` of internal/domain/task.go promise.
use nous.Prelude.{String, ◌≡◌, ◌≢◌, ◌↔◌, none, List, [], ◌∷◌, arith, eq_iff}
use nous.Prelude.Time.{Time}
use nous.Domain.Errors.{Uuid, ok}
use nous.Domain.Types.{AgentId}
use nous.Domain.Lifecycle.{calls}
use nous.Domain.Assignment.Lifecycle.{valid_iff, valid-can_transition_to}
use nous.Domain.Assignment.{
  AssignmentStatus, unknown, Assignment, validate, new_assignment, transition, assigned,
}

-- The fields of a record that may be stored.
pub record IsValid (c : Assignment) : Type 0 where
  pub id_set : c.id ≢ 0
  pub task_set : c.task_id ≢ 0
  pub staffed : c.agent_id ≢ ""
  pub known : (s : String) → c.status ≢ unknown s

validate_sound : (c : Assignment) → validate c ≡ none → IsValid c
unfolding validate
validate_sound c h = record {
  id_set = ground arith;
  task_set = ground arith;
  staffed = ground (arith, eq_iff c.agent_id "");
  known = (valid_iff c.status).0 (ground arith);
}

validate_complete : (c : Assignment) → IsValid c → validate c ≡ none
unfolding validate
validate_complete c v = ground (arith, eq_iff c.agent_id "", (valid_iff c.status).1 v.known)

-- `Validate` returns no error exactly for the records that have every field in order.
pub assignment_validate_iff : (c : Assignment) → (validate c ≡ none) ↔ IsValid c
assignment_validate_iff c = (validate_sound c, validate_complete c)

transition-validate :
    (c : Assignment) (t : AssignmentStatus) (now : Time)
    → validate c ≡ none
    → validate (transition c t now).0 ≡ none
unfolding validate transition
transition-validate c t now h = ground (arith, valid-can_transition_to c.status t)

-- Calls of `Transition`, refused or not, keep a record valid.
pub assignment_calls-IsValid :
    (c : Assignment) (ops : List (AssignmentStatus × Time))
    → IsValid c
    → IsValid (calls transition c ops)
unfolding calls
assignment_calls-IsValid c [] v = v
assignment_calls-IsValid c ((t, now) ∷ ops) v =
    assignment_calls-IsValid (transition c t now).0 ops
      (validate_sound _ (transition-validate c t now (validate_complete c v)))

-- What the constructor returns without an error is valid and holds the trimmed inputs.
pub new_assignment-IsValid :
    (id task : Uuid) (agent : AgentId) (now : Time) {c : Assignment}
    → new_assignment id task agent now ≡ ok c
    → IsValid c × (c.status ≡ assigned) × (c.completed_at ≡ none)
unfolding new_assignment
new_assignment-IsValid id task agent now {c} h =
    (validate_sound c (ground arith), ground arith, ground arith)
