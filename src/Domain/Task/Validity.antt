-- ===== src/Domain/Task/Validity.antt =====
-- What `Validate`, `NewTask` and `Transition` of internal/domain/task.go promise.
use nous.Prelude.{String, ◌≡◌, ◌≢◌, ◌↔◌, Option, none, List, [], ◌∷◌, arith, eq_iff, trim_space}
use nous.Prelude.Time.{Time}
use nous.Domain.Errors.{Uuid, ok}
use nous.Domain.Types.{Priority}
use nous.Domain.Lifecycle.{calls}
use nous.Domain.Task.Lifecycle.{valid_iff, valid-can_transition_to}
use nous.Domain.Task.{TaskStatus, unknown, Task, validate, new_task, transition, pending}

-- The fields of a record that may be stored.
pub record IsValid (c : Task) : Type 0 where
  pub id_set : c.id ≢ 0
  pub titled : c.title ≢ ""
  pub known : (s : String) → c.status ≢ unknown s

validate_sound : (c : Task) → validate c ≡ none → IsValid c
unfolding validate
validate_sound c h = record {
  id_set = ground arith;
  titled = ground (arith, eq_iff c.title "");
  known = (valid_iff c.status).0 (ground arith);
}

validate_complete : (c : Task) → IsValid c → validate c ≡ none
unfolding validate
validate_complete c v = ground (arith, eq_iff c.title "", (valid_iff c.status).1 v.known)

-- `Validate` returns no error exactly for the records that have every field in order.
pub task_validate_iff : (c : Task) → (validate c ≡ none) ↔ IsValid c
task_validate_iff c = (validate_sound c, validate_complete c)

transition-validate :
    (c : Task) (t : TaskStatus) (now : Time)
    → validate c ≡ none
    → validate (transition c t now).0 ≡ none
unfolding validate transition
transition-validate c t now h = ground (arith, valid-can_transition_to c.status t)

-- Calls of `Transition`, refused or not, keep a record valid.
pub task_calls-IsValid :
    (c : Task) (ops : List (TaskStatus × Time)) → IsValid c → IsValid (calls transition c ops)
unfolding calls
task_calls-IsValid c [] v = v
task_calls-IsValid c ((t, now) ∷ ops) v =
    task_calls-IsValid (transition c t now).0 ops
      (validate_sound _ (transition-validate c t now (validate_complete c v)))

-- What the constructor returns without an error is valid and holds the trimmed inputs.
pub new_task-IsValid :
    (id : Uuid) (title description : String) (priority : Priority) (due : Option Time) (now : Time)
    {c : Task}
    → new_task id title description priority due now ≡ ok c
    → IsValid c × (c.status ≡ pending) × (c.title ≡ trim_space title) × (c.assigned_to ≡ none)
unfolding new_task
new_task-IsValid id title description priority due now {c} h =
    (validate_sound c (ground arith), ground arith, ground arith, ground arith)
