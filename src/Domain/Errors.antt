-- ===== src/Domain/Errors.antt =====
-- internal/domain/errors.go: the sentinel errors, with the detail that the callers wrap into them.
use nous.Prelude.{ℕ, String, Option, none, some, ◌≡◌, refl}

-- `uuid.UUID`, the 128 bits as a number; `uuid.Nil` is 0.
abbrev pub Uuid : Type 0
Uuid = ℕ

-- What a `Validate` method found wrong, one constructor for each message.
pub data Violation : Type 0 where
  id_required owner_id_required description_required confidence_range risk_score_range : Violation
  subject_required reason_required title_required goal_id_required task_id_required : Violation
  agent_id_required message_required target_required : Violation
  step_id_required step_description_required : ℕ → Violation
  unknown_status unknown_type : String → Violation

pub data Error : Type 0 where
  commitment_not_found decision_not_found intervention_not_found : Uuid → Error
  goal_not_found task_not_found : Uuid → Error
  invalid_transition : String → String → Error
  validation : Violation → Error
  -- an error of a backend or of an outside service
  failure : String → Error

-- A Go function with results `(A, error)` of which one is meant.
pub data Result {ℓ} (A : Type ℓ) : Type ℓ where
  ok : A → Result A
  err : Error → Result A

-- `if err := v.Validate(); err != nil { return T{}, err }; return v, nil`
abbrev pub checked {ℓ} : {A : Type ℓ} → Option Error → A → Result A
checked none a = ok a
checked (some e) a = err e

abbrev pub IsOk {ℓ} : {A : Type ℓ} → Result A → Type 0
IsOk (ok a) = Unit
IsOk (err e) = ⊥

pub IsOk-value : {A : Type 0} (r : Result A) → IsOk r → (a : A) × (r ≡ ok a)
IsOk-value (ok a) h = (a, refl)
IsOk-value (err e) h = absurd h

pub ok_same : {A : Type 0} {a b : A} → ok a ≡ ok b → a ≡ b
ok_same e = cc e
