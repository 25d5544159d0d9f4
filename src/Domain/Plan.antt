-- ===== src/Domain/Plan.antt =====
-- internal/domain/goal.go: plans.
pub mod Lifecycle
pub mod Validity
use nous.Prelude.{
  ℕ, ◌+◌, String, ◌==◌, str_eq, Bool, true, false, ◌||◌, ◌&&◌, not, Option, none, some, List, [],
  ◌∷◌, if◌then◌else◌, trim_space,
}
use nous.Prelude.Int.{ℤ}
use nous.Prelude.Time.{Time, utc}
use nous.Domain.Errors.{
  Uuid, Error, Result, ok, err, checked, invalid_transition, validation, id_required,
  owner_id_required, title_required, goal_id_required, task_id_required, agent_id_required,
  message_required, target_required, step_id_required, step_description_required, unknown_status,
  unknown_type,
}
use nous.Domain.Types.{SourceRef, Priority, AgentId}

-- A Go string; `unknown s` is a string `s` that is none of the constants.
pub data PlanStatus : Type 0 where
  draft active completed superseded : PlanStatus
  unknown : String → PlanStatus

unfoldable pub status_text : PlanStatus → String
status_text draft = "draft"
status_text active = "active"
status_text completed = "completed"
status_text superseded = "superseded"
status_text (unknown s) = s

-- `s == t` on the strings.
abbrev pub same : PlanStatus → PlanStatus → Bool
same draft draft = true
same active active = true
same completed completed = true
same superseded superseded = true
same (unknown s) (unknown t) = str_eq s t
same _ _ = false

unfoldable pub valid : PlanStatus → Bool
valid draft = true
valid active = true
valid completed = true
valid superseded = true
valid (unknown s) = false

-- The `switch` of `CanTransitionTo`.
edge : PlanStatus → PlanStatus → Bool
edge draft target = same target active || same target superseded
edge active target = same target completed || same target superseded
edge _ target = false

unfoldable pub can_transition_to : PlanStatus → PlanStatus → Bool
unfolding edge
can_transition_to s target = if same s target then true else edge s target

pub record PlanStep : Type 0 where
  pub id : String
  pub order : ℤ
  pub description : String
  pub required_capability : Option String
  pub depends_on : List String

pub record Plan : Type 0 where
  pub id : Uuid
  pub goal_id : Uuid
  pub status : PlanStatus
  pub steps : List PlanStep
  pub created_at : Time
  pub updated_at : Time

-- The loop over the steps, from index `i`.
unfoldable pub check_steps : ℕ → List PlanStep → Option Error
check_steps i [] = none
check_steps i (step ∷ steps) =
    let rest = check_steps (i + 1) steps in
    if str_eq step.id ""
    then some (validation (step_id_required i))
    else if str_eq step.description ""
    then some (validation (step_description_required i))
    else rest

unfoldable pub validate : Plan → Option Error
unfolding valid
validate p =
    if p.id == 0
    then some (validation id_required)
    else if p.goal_id == 0
    then some (validation goal_id_required)
    else if not (valid p.status)
    then some (validation (unknown_status (status_text p.status)))
    else check_steps 0 p.steps

-- The method changes the record it is called on: the new value comes back beside the error.
unfoldable pub transition : Plan → PlanStatus → Time → Plan × Option Error
unfolding can_transition_to status_text
transition c target now =
    if can_transition_to c.status target
    then (record c { status = target; updated_at = utc now }, none)
    else (c, some (invalid_transition (status_text c.status) (status_text target)))
