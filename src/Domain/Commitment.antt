-- ===== src/Domain/Commitment.antt =====
-- internal/domain/commitment.go: the status of a promise, the record, its validation, its
-- construction and its transitions.
pub mod Lifecycle
pub mod Validity
use nous.Prelude.{
  ℕ, String, ◌==◌, str_eq, Bool, true, false, ◌||◌, not, Option, none, some, List, [], ◌∷◌,
  if◌then◌else◌, trim_space,
}
use nous.Prelude.Time.{Time, utc}
use nous.Prelude.Float.{Float64, outside_unit}
use nous.Domain.Errors.{
  Uuid, Error, Result, ok, err, checked, invalid_transition, validation, id_required,
  owner_id_required, description_required, confidence_range, risk_score_range, unknown_status,
}
use nous.Domain.Types.{SourceRef, EntityRef}

-- A Go string; `unknown s` is a string `s` that is none of the five constants.
pub data CommitmentStatus : Type 0 where
  pending in_progress completed missed cancelled : CommitmentStatus
  unknown : String → CommitmentStatus

unfoldable pub status_text : CommitmentStatus → String
status_text pending = "pending"
status_text in_progress = "in_progress"
status_text completed = "completed"
status_text missed = "missed"
status_text cancelled = "cancelled"
status_text (unknown s) = s

-- `s == t` on the strings.
abbrev pub same : CommitmentStatus → CommitmentStatus → Bool
same pending pending = true
same in_progress in_progress = true
same completed completed = true
same missed missed = true
same cancelled cancelled = true
same (unknown s) (unknown t) = str_eq s t
same _ _ = false

unfoldable pub is_active : CommitmentStatus → Bool
is_active pending = true
is_active in_progress = true
is_active _ = false

unfoldable pub valid : CommitmentStatus → Bool
valid pending = true
valid in_progress = true
valid completed = true
valid missed = true
valid cancelled = true
valid (unknown s) = false

-- The `switch` of `CanTransitionTo`.
edge : CommitmentStatus → CommitmentStatus → Bool
edge pending target =
    same target in_progress || same target completed || same target missed || same target cancelled
edge in_progress target = same target completed || same target missed || same target cancelled
edge _ target = false

unfoldable pub can_transition_to : CommitmentStatus → CommitmentStatus → Bool
unfolding edge
can_transition_to s target = if same s target then true else edge s target

pub record Commitment (F : Type 0) : Type 0 where
  pub id : Uuid
  pub owner_id : String
  pub description : String
  pub source_refs : List SourceRef
  pub entities : List EntityRef
  pub due_at : Option Time
  pub status : CommitmentStatus
  pub confidence : F
  pub risk_score : F
  pub last_evaluated_at : Option Time
  pub created_at : Time
  pub updated_at : Time

module _ {F : Type 0} ⦃fl : Float64 F⦄ where
  unfoldable pub validate : Commitment F → Option Error
  unfolding valid
  validate c =
      if c.id == 0
      then some (validation id_required)
      else if str_eq c.owner_id ""
      then some (validation owner_id_required)
      else if str_eq c.description ""
      then some (validation description_required)
      else if outside_unit c.confidence
      then some (validation confidence_range)
      else if outside_unit c.risk_score
      then some (validation risk_score_range)
      else if not (valid c.status)
      then some (validation (unknown_status (status_text c.status)))
      else none

  -- `id` is what `uuid.New()` draws.
  unfoldable pub new_commitment :
      Uuid → String → String → Option Time → F → Time → Result (Commitment F)
  unfolding trim_space validate
  new_commitment id owner_id description due_at confidence now =
      let c : Commitment F = record {
        id = id;
        owner_id = trim_space owner_id;
        description = trim_space description;
        source_refs = [];
        entities = [];
        due_at = due_at;
        status = pending;
        confidence = confidence;
        risk_score = fl.hundredths 0;
        last_evaluated_at = none;
        created_at = utc now;
        updated_at = utc now;
      } in
      checked (validate c) c

module _ {F : Type 0} where
  -- The method changes the commitment it is called on: the new value comes back beside the error.
  unfoldable pub transition : Commitment F → CommitmentStatus → Time → Commitment F × Option Error
  unfolding can_transition_to status_text
  transition c target now =
      if can_transition_to c.status target
      then (record c { status = target; updated_at = utc now }, none)
      else (c, some (invalid_transition (status_text c.status) (status_text target)))

-- What the extractor proposes.
pub record CommitmentDraft (F : Type 0) : Type 0 where
  pub owner_id : String
  pub description : String
  pub due_at : Option Time
  pub entities : List EntityRef
  pub source_refs : List SourceRef
  pub confidence : F

module _ {F : Type 0} ⦃fl : Float64 F⦄ where
  unfoldable pub with_evidence : CommitmentDraft F → Result (Commitment F) → Result (Commitment F)
  with_evidence d (ok c) = ok (record c { entities = d.entities; source_refs = d.source_refs })
  with_evidence d (err e) = err e

  unfoldable pub to_commitment : CommitmentDraft F → Uuid → Time → Result (Commitment F)
  unfolding new_commitment with_evidence
  to_commitment d id now =
      with_evidence d (new_commitment id d.owner_id d.description d.due_at d.confidence now)
