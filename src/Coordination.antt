-- ===== src/Coordination.antt =====
-- internal/coordination: an accepted intervention is handed to Praxis. kernel.go, and what both kernels do with the
-- action before they run it. Maps of a Praxis result are of any type `M`.
pub mod Direct
pub mod Axi
pub mod Requests
use nous.Prelude.{
  ℕ, Bool, true, false, Option, none, some, String, List, [], ◌∷◌, if◌then◌else◌, str_eq,
}
use nous.Prelude.Time.{Time}
use nous.Domain.Errors.{Uuid, Error, failure, Result}
use nous.Domain.Intervention.{ActionRequest}

-- internal/ports/interfaces.go
pub record ExecutionResult (M : Type 0) : Type 0 where
  pub capability : String
  pub success : Bool
  pub output : Option M
  pub error : String
  pub idempotency_key : String
  pub executed_at : Time

-- A value of an evidence map.
pub data Fact (M : Type 0) : Type 0 where
  text : String → Fact M
  flag : Bool → Fact M
  instant : Time → Fact M

pub record EvidenceRecord (M : Type 0) : Type 0 where
  pub kind : String
  pub source : String
  pub value : List (String × Fact M)

pub record Outcome (M : Type 0) : Type 0 where
  pub intervention_id : Uuid
  pub action_request : Option ActionRequest
  pub success : Bool
  pub output : Option M
  pub error_message : String
  pub evidence : List (EvidenceRecord M)

-- `ErrNoSuggestedAction`
abbrev pub no_suggested_action : Error
no_suggested_action = failure "coordination: intervention has no suggested action"

module _ {M : Type 0} where
  -- `Outcome{InterventionID: iv.ID}`
  abbrev pub blank_outcome : Uuid → Outcome M
  blank_outcome id = record {
    intervention_id = id;
    action_request = none;
    success = false;
    output = none;
    error_message = "";
    evidence = [];
  }

-- The request with its key, for which the intervention's identifier stands in.
unfoldable pub keyed_request : (Uuid → String) → Uuid → ActionRequest → ActionRequest
keyed_request string_of id req =
    if str_eq req.idempotency_key "" then record req { idempotency_key = string_of id } else req
