-- ===== src/Domain/Decision/Validity.antt =====
-- What `Validate` and `NewDecision` of internal/domain/decision.go promise.
use nous.Prelude.{String, ◌≡◌, ◌≢◌, ◌↔◌, false, none, arith, eq_iff, trim_space}
use nous.Prelude.Time.{Time}
use nous.Prelude.Float.{Float64, outside_unit}
use nous.Domain.Errors.{Uuid, ok, IsOk}
use nous.Domain.Decision.{Decision, validate, new_decision}

module _ {F : Type 0} ⦃fl : Float64 F⦄ where
  pub record IsValid (d : Decision F) : Type 0 where
    pub id_set : d.id ≢ 0
    pub titled : d.subject ≢ ""
    pub reasoned : d.reason ≢ ""
    pub confident : outside_unit d.confidence ≡ false

  -- `Validate` returns no error exactly for the decisions that have every field in order.
  pub decision_validate_iff : (d : Decision F) → (validate d ≡ none) ↔ IsValid d
  unfolding validate
  decision_validate_iff d = (
    λ h. record {
      id_set = ground arith;
      titled = ground (arith, eq_iff d.subject "");
      reasoned = ground (arith, eq_iff d.reason "");
      confident = ground arith;
    },
    λ v. ground (arith, eq_iff d.subject "", eq_iff d.reason ""),
  )

  -- With inputs that are in order a decision is made.
  pub new_decision_accepts :
      (id : Uuid) (subject reason : String) (x : F) (now : Time)
      → IsOk (new_decision id subject reason x now) ↔ (
          (id ≢ 0)
          × (trim_space subject ≢ "")
          × (trim_space reason ≢ "")
          × (outside_unit x ≡ false))
  unfolding new_decision
  new_decision_accepts id subject reason x now = (
    λ h. ground (arith, eq_iff (trim_space subject) "", eq_iff (trim_space reason) ""),
    λ h. ground (arith, eq_iff (trim_space subject) "", eq_iff (trim_space reason) ""),
  )

  pub new_decision-validate :
      (id : Uuid) (subject reason : String) (x : F) (now : Time) {d : Decision F}
      → new_decision id subject reason x now ≡ ok d
      → validate d ≡ none
  unfolding new_decision validate
  new_decision-validate id subject reason x now {d} h = ground arith
