-- ===== src/Domain/Intervention/Validity.antt =====
-- What `Validate`, `NewIntervention` and `Resolve` of internal/domain/intervention.go promise.
use nous.Prelude.{
  String, ◌≡◌, ◌≢◌, ◌↔◌, true, false, ◌&&◌, Option, none, List, [], ◌∷◌, arith, eq_iff,
}
use nous.Prelude.Time.{Time}
use nous.Domain.Errors.{Uuid, ok}
use nous.Domain.Lifecycle.{calls}
use nous.Domain.Intervention.Lifecycle.{valid_iff, valid-can_transition_to}
use nous.Domain.Intervention.{
  InterventionStatus, unknown, Intervention, validate, new_intervention, resolve, pending,
  InterventionType, ActionRequest, valid_type, is_none,
}

-- The fields of a record that may be stored.
pub record IsValid (c : Intervention) : Type 0 where
  pub id_set : c.id ≢ 0
  pub typed : valid_type c.type ≡ true
  pub known : (s : String) → c.status ≢ unknown s
  pub worded : c.message ≢ ""
  pub aimed : (is_none c.commitment_id && is_none c.task_id) ≡ false

validate_sound : (c : Intervention) → validate c ≡ none → IsValid c
unfolding validate
validate_sound c h = record {
  id_set = ground arith;
  typed = ground arith;
  known = (valid_iff c.status).0 (ground arith);
  worded = ground (arith, eq_iff c.message "");
  aimed = ground arith;
}

validate_complete : (c : Intervention) → IsValid c → validate c ≡ none
unfolding validate
validate_complete c v = ground (arith, eq_iff c.message "", (valid_iff c.status).1 v.known)

-- `Validate` returns no error exactly for the records that have every field in order.
pub intervention_validate_iff : (c : Intervention) → (validate c ≡ none) ↔ IsValid c
intervention_validate_iff c = (validate_sound c, validate_complete c)

resolve-validate :
    (c : Intervention) (t : InterventionStatus) (now : Time)
    → validate c ≡ none
    → validate (resolve c t now).0 ≡ none
unfolding validate resolve
resolve-validate c t now h = ground (arith, valid-can_transition_to c.status t)

-- Calls of `Resolve`, refused or not, keep a record valid.
pub intervention_calls-IsValid :
    (c : Intervention) (ops : List (InterventionStatus × Time))
    → IsValid c
    → IsValid (calls resolve c ops)
unfolding calls
intervention_calls-IsValid c [] v = v
intervention_calls-IsValid c ((t, now) ∷ ops) v =
    intervention_calls-IsValid (resolve c t now).0 ops
      (validate_sound _ (resolve-validate c t now (validate_complete c v)))

-- What the constructor returns without an error is valid and holds the trimmed inputs.
pub new_intervention-IsValid :
    (id : Uuid) (t : InterventionType) (message : String) (commitment task : Option Uuid)
    (action : Option ActionRequest) (now : Time) {c : Intervention}
    → new_intervention id t message commitment task action now ≡ ok c
    → IsValid c
      × (c.status ≡ pending)
      × (c.type ≡ t)
      × (c.commitment_id ≡ commitment)
      × (c.triggered_at ≡ now)
      × (c.resolved_at ≡ none)
unfolding new_intervention
new_intervention-IsValid id t message commitment task action now {c} h = (
  validate_sound c (ground arith),
  ground arith,
  ground arith,
  ground arith,
  ground arith,
  ground arith,
)
