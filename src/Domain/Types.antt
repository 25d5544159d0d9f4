-- ===== src/Domain/Types.antt =====
-- internal/domain/types.go: identifiers, priorities and references to evidence.
use nous.Prelude.{String, List}
use nous.Prelude.Int.{ℤ, pos}
use nous.Prelude.Time.{Time}
use nous.Domain.Errors.{Uuid}

abbrev pub AgentId : Type 0
AgentId = String

abbrev pub Priority : Type 0
Priority = ℤ

abbrev pub priority_normal : Priority
priority_normal = pos 50

abbrev pub priority_high : Priority
priority_high = pos 75

pub record SourceRef : Type 0 where
  pub kind : String
  pub locator : String

pub record EntityRef : Type 0 where
  pub kind : String
  pub name : String
  pub id : String

pub record MemoryRef : Type 0 where
  pub id : String
  pub kind : String
  pub occurred_at : Time

pub record ChronosSignal (F : Type 0) : Type 0 where
  pub id : Uuid
  pub pattern_name : String
  pub scope_id : Uuid
  pub series : Uuid
  pub confidence : F
  pub detected_at : Time
  pub entities : List EntityRef
