-- ===== src/Domain/Goal.antt =====
-- internal/domain/goal.go: goals.
pub mod Lifecycle
pub mod Validity
use nous.Prelude.{
  ℕ, String, ◌==◌, str_eq, Bool, true, false, ◌||◌, ◌&&◌, not, Option, none, some, List, [], ◌∷◌,
  if◌then◌else◌, trim_space,
}
use nous.Prelude.Time.{Time, utc}
use nous.Domain.Errors.{
  Uuid, Error, Result, ok, err, checked, invalid_transition, validation, id_required,
  owner_id_required, title_required, goal_id_required, task_id_required, agent_id_required,
  message_required, target_required, step_id_required, step_description_required, unknown_status,
  unknown_type,
}
use nous.Domain.Types.{SourceRef, Priority, AgentId}

-- A Go string; `unknown s` is a string `s` that is none of the constants.
pub data GoalStatus : Type 0 where
  opened planned active completed cancelled : GoalStatus
  unknown : String → GoalStatus

unfoldable pub status_text : GoalStatus → String
status_text opened = "open"
status_text planned = "planned"
status_text active = "active"
status_text completed = "completed"
status_text cancelled = "cancelled"
status_text (unknown s) = s

-- `s == t` on the strings.
abbrev pub same : GoalStatus → GoalStatus → Bool
same opened opened = true
same planned planned = true
same active active = true
same completed completed = true
same cancelled cancelled = true
same (unknown s) (unknown t) = str_eq s t
same _ _ = false

unfoldable pub valid : GoalStatus → Bool
valid opened = true
valid planned = true
valid active = true
valid completed = true
valid cancelled = true
valid (unknown s) = false

-- The `switch` of `CanTransitionTo`.
edge : GoalStatus → GoalStatus → Bool
edge opened target = same target planned || same target cancelled
edge planned target = same target active || same target cancelled
edge active target = same target completed || same target cancelled
edge _ target = false

unfoldable pub can_transition_to : GoalStatus → GoalStatus → Bool
unfolding edge
can_transition_to s target = if same s target then true else edge s target

pub record Goal : Type 0 where
  pub id : Uuid
  pub owner_id : String
  pub title : String
  pub description : String
  pub priority : Priority
  pub status : GoalStatus
  pub source_refs : List SourceRef
  pub created_at : Time
  pub updated_at : Time

unfoldable pub validate : Goal → Option Error
unfolding valid
validate g =
    if g.id == 0
    then some (validation id_required)
    else if str_eq g.owner_id ""
    then some (validation owner_id_required)
    else if str_eq g.title ""
    then some (validation title_required)
    else if not (valid g.status)
    then some (validation (unknown_status (status_text g.status)))
    else none

-- `id` is what `uuid.New()` draws.
unfoldable pub new_goal : Uuid → String → String → String → Priority → Time → Result Goal
unfolding trim_space validate
new_goal id owner_id title description priority now =
    let g : Goal = record {
      id = id;
      owner_id = trim_space owner_id;
      title = trim_space title;
      description = trim_space description;
      priority = priority;
      status = opened;
      source_refs = [];
      created_at = utc now;
      updated_at = utc now;
    } in
    checked (validate g) g

-- The method changes the record it is called on: the new value comes back beside the error.
unfoldable pub transition : Goal → GoalStatus → Time → Goal × Option Error
unfolding can_transition_to status_text
transition c target now =
    if can_transition_to c.status target
    then (record c { status = target; updated_at = utc now }, none)
    else (c, some (invalid_transition (status_text c.status) (status_text target)))
