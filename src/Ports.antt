-- ===== src/Ports.antt =====
-- internal/ports/interfaces.go: the queries that the repositories and the outside services answer.
use nous.Prelude.{String, List, Option}
use nous.Prelude.Int.{ℤ}
use nous.Prelude.Time.{Time}
use nous.Domain.Errors.{Uuid}
use nous.Domain.Types.{AgentId, EntityRef, SourceRef}
use nous.Domain.Commitment.{CommitmentStatus}
use nous.Domain.Decision.{Fields}
use nous.Domain.Intervention.{InterventionStatus}
use nous.Domain.Task.{TaskStatus}

pub record CommitmentFilter : Type 0 where
  pub owner_id : String
  pub statuses : List CommitmentStatus
  pub due_by : Option Time
  pub limit : ℤ

pub record InterventionFilter : Type 0 where
  pub commitment_id : Option Uuid
  pub task_id : Option Uuid
  pub statuses : List InterventionStatus
  pub since : Option Time
  pub limit : ℤ

pub record TaskFilter : Type 0 where
  pub goal_id : Option Uuid
  pub commitment_id : Option Uuid
  pub assigned_to : Option AgentId
  pub statuses : List TaskStatus
  pub limit : ℤ

pub record RecallQuery : Type 0 where
  pub text : String
  pub entities : List EntityRef
  pub since : Option Time
  pub limit : ℤ

pub record MnemosEvent (F : Type 0) : Type 0 where
  pub kind : String
  pub occurred_at : Time
  pub actor : String
  pub subject : String
  pub body : Fields F
  pub source_refs : List SourceRef

pub record SignalFilter : Type 0 where
  pub scope_id : String
  pub entity_refs : List EntityRef
  pub since : Option Time
  pub patterns : List String
  pub limit : ℤ
