-- ===== src/Domain/Intervention.antt =====
-- internal/domain/intervention.go: interventions and the actions that they suggest.
pub mod Lifecycle
pub mod Validity
use nous.Prelude.{
  ℕ, String, ◌==◌, str_eq, Bool, true, false, ◌||◌, ◌&&◌, not, Option, none, some, List, [], ◌∷◌,
  if◌then◌else◌, trim_space,
}
use nous.Prelude.Time.{Time, utc}
use nous.Domain.Errors.{
  Uuid, Error, Result, ok, err, checked, invalid_transition, validation, id_required,
  owner_id_required, title_required, goal_id_required, task_id_required, agent_id_required,
  message_required, target_required, step_id_required, step_description_required, unknown_status,
  unknown_type,
}
use nous.Domain.Types.{SourceRef, Priority, AgentId}

-- A Go string; `unknown s` is a string `s` that is none of the constants.
pub data InterventionType : Type 0 where
  nudge suggestion escalation automation : InterventionType
  unknown_kind : String → InterventionType

unfoldable pub type_text : InterventionType → String
type_text nudge = "nudge"
type_text suggestion = "suggestion"
type_text escalation = "escalation"
type_text automation = "automation"
type_text (unknown_kind s) = s

unfoldable pub valid_type : InterventionType → Bool
valid_type nudge = true
valid_type suggestion = true
valid_type escalation = true
valid_type automation = true
valid_type (unknown_kind s) = false

-- A Go string; `unknown s` is a string `s` that is none of the constants.
pub data InterventionStatus : Type 0 where
  pending accepted rejected expired executed : InterventionStatus
  unknown : String → InterventionStatus

unfoldable pub status_text : InterventionStatus → String
status_text pending = "pending"
status_text accepted = "accepted"
status_text rejected = "rejected"
status_text expired = "expired"
status_text executed = "executed"
status_text (unknown s) = s

-- `s == t` on the strings.
abbrev pub same : InterventionStatus → InterventionStatus → Bool
same pending pending = true
same accepted accepted = true
same rejected rejected = true
same expired expired = true
same executed executed = true
same (unknown s) (unknown t) = str_eq s t
same _ _ = false

unfoldable pub valid : InterventionStatus → Bool
valid pending = true
valid accepted = true
valid rejected = true
valid expired = true
valid executed = true
valid (unknown s) = false

-- The `switch` of `CanTransitionTo`.
edge : InterventionStatus → InterventionStatus → Bool
edge pending target = same target accepted || same target rejected || same target expired
edge accepted target = same target executed
edge _ target = false

unfoldable pub can_transition_to : InterventionStatus → InterventionStatus → Bool
unfolding edge
can_transition_to s target = if same s target then true else edge s target

pub record ActionConstraint : Type 0 where
  pub key : String
  pub value : String

-- A value of a `map[string]any` payload, as far as the program puts one in.
pub data PayloadValue : Type 0 where
  text : String → PayloadValue
  instant : Option Time → PayloadValue

pub record ActionRequest : Type 0 where
  pub id : Uuid
  pub capability : String
  pub payload : List (String × PayloadValue)
  pub constraints : List ActionConstraint
  pub idempotency_key : String

pub record Intervention : Type 0 where
  pub id : Uuid
  pub commitment_id : Option Uuid
  pub task_id : Option Uuid
  pub type : InterventionType
  pub message : String
  pub suggested_action : Option ActionRequest
  pub status : InterventionStatus
  pub triggered_at : Time
  pub resolved_at : Option Time

abbrev pub is_none {ℓ} : {A : Type ℓ} → Option A → Bool
is_none none = true
is_none (some a) = false

unfoldable pub validate : Intervention → Option Error
unfolding valid valid_type
validate iv =
    if iv.id == 0
    then some (validation id_required)
    else if not (valid_type iv.type)
    then some (validation (unknown_type (type_text iv.type)))
    else if not (valid iv.status)
    then some (validation (unknown_status (status_text iv.status)))
    else if str_eq iv.message ""
    then some (validation message_required)
    else if is_none iv.commitment_id && is_none iv.task_id
    then some (validation target_required)
    else none

-- `id` is what `uuid.New()` draws.
unfoldable pub new_intervention :
    Uuid
    → InterventionType
    → String
    → Option Uuid
    → Option Uuid
    → Option ActionRequest
    → Time
    → Result Intervention
unfolding trim_space validate
new_intervention id t message commitment_id task_id suggested now =
    let iv : Intervention = record {
      id = id;
      commitment_id = commitment_id;
      task_id = task_id;
      type = t;
      message = trim_space message;
      suggested_action = suggested;
      status = pending;
      triggered_at = utc now;
      resolved_at = none;
    } in
    checked (validate iv) iv

-- The method changes the record it is called on: the new value comes back beside the error.
unfoldable pub resolve : Intervention → InterventionStatus → Time → Intervention × Option Error
unfolding can_transition_to status_text
resolve iv target now =
    if can_transition_to iv.status target
    then (record iv { status = target; resolved_at = some (utc now) }, none)
    else (iv, some (invalid_transition (status_text iv.status) (status_text target)))
