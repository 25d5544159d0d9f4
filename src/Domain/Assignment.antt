-- ===== src/Domain/Assignment.antt =====
-- internal/domain/task.go: assignments of tasks to agents.
pub mod Lifecycle
pub mod Validity
use nous.Prelude.{
  ℕ, String, ◌==◌, str_eq, Bool, true, false, ◌||◌, ◌&&◌, not, Option, none, some, List, [], ◌∷◌,
  if◌then◌else◌, trim_space,
}
use nous.Prelude.Time.{Time, utc}
use nous.Domain.Errors.{
  Uuid, Error, Result, ok, err, checked, invalid_transition, validation, id_required,
  owner_id_required, title_required, goal_id_required, task_id_required, agent_id_required,
  message_required, target_required, step_id_required, step_description_required, unknown_status,
  unknown_type,
}
use nous.Domain.Types.{SourceRef, Priority, AgentId}

-- A Go string; `unknown s` is a string `s` that is none of the constants.
pub data AssignmentStatus : Type 0 where
  assigned running completed cancelled : AssignmentStatus
  unknown : String → AssignmentStatus

unfoldable pub status_text : AssignmentStatus → String
status_text assigned = "assigned"
status_text running = "running"
status_text completed = "completed"
status_text cancelled = "cancelled"
status_text (unknown s) = s

-- `s == t` on the strings.
abbrev pub same : AssignmentStatus → AssignmentStatus → Bool
same assigned assigned = true
same running running = true
same completed completed = true
same cancelled cancelled = true
same (unknown s) (unknown t) = str_eq s t
same _ _ = false

unfoldable pub valid : AssignmentStatus → Bool
valid assigned = true
valid running = true
valid completed = true
valid cancelled = true
valid (unknown s) = false

-- The `switch` of `CanTransitionTo`.
edge : AssignmentStatus → AssignmentStatus → Bool
edge assigned target = same target running || same target cancelled
edge running target = same target completed || same target cancelled
edge _ target = false

unfoldable pub can_transition_to : AssignmentStatus → AssignmentStatus → Bool
unfolding edge
can_transition_to s target = if same s target then true else edge s target

pub record Assignment : Type 0 where
  pub id : Uuid
  pub task_id : Uuid
  pub agent_id : AgentId
  pub status : AssignmentStatus
  pub assigned_at : Time
  pub completed_at : Option Time

unfoldable pub validate : Assignment → Option Error
unfolding valid
validate a =
    if a.id == 0
    then some (validation id_required)
    else if a.task_id == 0
    then some (validation task_id_required)
    else if str_eq a.agent_id ""
    then some (validation agent_id_required)
    else if not (valid a.status)
    then some (validation (unknown_status (status_text a.status)))
    else none

-- `id` is what `uuid.New()` draws.
unfoldable pub new_assignment : Uuid → Uuid → AgentId → Time → Result Assignment
unfolding validate
new_assignment id task_id agent_id now =
    let a : Assignment = record {
      id = id;
      task_id = task_id;
      agent_id = agent_id;
      status = assigned;
      assigned_at = utc now;
      completed_at = none;
    } in
    checked (validate a) a

-- The method changes the record it is called on: the new value comes back beside the error.
unfoldable pub transition : Assignment → AssignmentStatus → Time → Assignment × Option Error
unfolding can_transition_to status_text
transition a target now =
    if can_transition_to a.status target
    then (if same target completed || same target cancelled
        then (record a { status = target; completed_at = some (utc now) }, none)
        else (record a { status = target }, none))
    else (a, some (invalid_transition (status_text a.status) (status_text target)))
