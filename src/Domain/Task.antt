-- ===== src/Domain/Task.antt =====
-- internal/domain/task.go: tasks.
pub mod Lifecycle
pub mod Validity
use nous.Prelude.{
  ℕ, String, ◌==◌, str_eq, Bool, true, false, ◌||◌, ◌&&◌, not, Option, none, some, List, [], ◌∷◌,
  if◌then◌else◌, trim_space,
}
use nous.Prelude.Time.{Time, utc}
use nous.Domain.Errors.{
  Uuid, Error, Result, ok, err, checked, invalid_transition, validation, id_required,
  owner_id_required, title_required, goal_id_required, task_id_required, agent_id_required,
  message_required, target_required, step_id_required, step_description_required, unknown_status,
  unknown_type,
}
use nous.Domain.Types.{SourceRef, Priority, AgentId}

-- A Go string; `unknown s` is a string `s` that is none of the constants.
pub data TaskStatus : Type 0 where
  pending assigned running blocked completed failed cancelled : TaskStatus
  unknown : String → TaskStatus

unfoldable pub status_text : TaskStatus → String
status_text pending = "pending"
status_text assigned = "assigned"
status_text running = "running"
status_text blocked = "blocked"
status_text completed = "completed"
status_text failed = "failed"
status_text cancelled = "cancelled"
status_text (unknown s) = s

-- `s == t` on the strings.
abbrev pub same : TaskStatus → TaskStatus → Bool
same pending pending = true
same assigned assigned = true
same running running = true
same blocked blocked = true
same completed completed = true
same failed failed = true
same cancelled cancelled = true
same (unknown s) (unknown t) = str_eq s t
same _ _ = false

unfoldable pub valid : TaskStatus → Bool
valid pending = true
valid assigned = true
valid running = true
valid blocked = true
valid completed = true
valid failed = true
valid cancelled = true
valid (unknown s) = false

unfoldable pub is_terminal : TaskStatus → Bool
is_terminal completed = true
is_terminal failed = true
is_terminal cancelled = true
is_terminal _ = false

-- The `switch` of `CanTransitionTo`.
edge : TaskStatus → TaskStatus → Bool
edge pending target = same target assigned || same target blocked || same target cancelled
edge assigned target =
    same target running || same target blocked || same target cancelled || same target pending
edge running target =
    same target completed || same target failed || same target blocked || same target cancelled
edge blocked target = same target pending || same target assigned || same target cancelled
edge _ target = false

unfoldable pub can_transition_to : TaskStatus → TaskStatus → Bool
unfolding edge is_terminal
can_transition_to s target =
    if same s target then true else if is_terminal s then false else edge s target

pub record Task : Type 0 where
  pub id : Uuid
  pub goal_id : Option Uuid
  pub plan_id : Option Uuid
  pub commitment_id : Option Uuid
  pub title : String
  pub description : String
  pub assigned_to : Option AgentId
  pub status : TaskStatus
  pub priority : Priority
  pub due_at : Option Time
  pub created_at : Time
  pub updated_at : Time

unfoldable pub validate : Task → Option Error
unfolding valid
validate t =
    if t.id == 0
    then some (validation id_required)
    else if str_eq t.title ""
    then some (validation title_required)
    else if not (valid t.status)
    then some (validation (unknown_status (status_text t.status)))
    else none

-- `id` is what `uuid.New()` draws.
unfoldable pub new_task : Uuid → String → String → Priority → Option Time → Time → Result Task
unfolding trim_space validate
new_task id title description priority due_at now =
    let t : Task = record {
      id = id;
      goal_id = none;
      plan_id = none;
      commitment_id = none;
      title = trim_space title;
      description = trim_space description;
      assigned_to = none;
      status = pending;
      priority = priority;
      due_at = due_at;
      created_at = utc now;
      updated_at = utc now;
    } in
    checked (validate t) t

-- The method changes the record it is called on: the new value comes back beside the error.
unfoldable pub transition : Task → TaskStatus → Time → Task × Option Error
unfolding can_transition_to status_text
transition c target now =
    if can_transition_to c.status target
    then (record c { status = target; updated_at = utc now }, none)
    else (c, some (invalid_transition (status_text c.status) (status_text target)))
