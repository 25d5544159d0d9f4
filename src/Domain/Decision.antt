-- ===== src/Domain/Decision.antt =====
-- internal/domain/decision.go: the append-only record of what was decided and why.
pub mod Validity
use nous.Prelude.{ℕ, String, ◌==◌, str_eq, Option, none, some, List, [], if◌then◌else◌, trim_space}
use nous.Prelude.Time.{Time, utc}
use nous.Prelude.Float.{Float64, outside_unit}
use nous.Risk.Types.{RiskFactor}
use nous.Domain.Errors.{
  Uuid, Error, Result, checked, validation, id_required, subject_required, reason_required,
  confidence_range,
}
use nous.Domain.Types.{SourceRef}

-- A value of a `map[string]any`, as far as the program puts one in.
pub data Value (F : Type 0) : Type 0 where
  text : String → Value F
  count : ℕ → Value F
  number : F → Value F
  texts : List String → Value F
  risk_factors : List (RiskFactor F) → Value F

abbrev pub Fields : Type 0 → Type 0
Fields F = List (String × Value F)

pub record Decision (F : Type 0) : Type 0 where
  pub id : Uuid
  pub subject : String
  pub context_refs : List SourceRef
  pub inputs : Fields F
  pub weights : List (String × F)
  pub outcome : Fields F
  pub reason : String
  pub confidence : F
  pub created_at : Time

module _ {F : Type 0} ⦃fl : Float64 F⦄ where
  unfoldable pub validate : Decision F → Option Error
  validate d =
      if d.id == 0
      then some (validation id_required)
      else if str_eq d.subject ""
      then some (validation subject_required)
      else if str_eq d.reason ""
      then some (validation reason_required)
      else if outside_unit d.confidence
      then some (validation confidence_range)
      else none

  -- `id` is what `uuid.New()` draws.
  unfoldable pub new_decision : Uuid → String → String → F → Time → Result (Decision F)
  unfolding trim_space validate
  new_decision id subject reason confidence now =
      let d : Decision F = record {
        id = id;
        subject = trim_space subject;
        context_refs = [];
        inputs = [];
        weights = [];
        outcome = [];
        reason = trim_space reason;
        confidence = confidence;
        created_at = utc now;
      } in
      checked (validate d) d
