-- ===== src/Domain/Plan/Validity.antt =====
-- What `Validate`, `NewPlan` and `Transition` of internal/domain/goal.go promise.
use nous.Prelude.{ℕ, String, ◌≡◌, ◌≢◌, refl, ◌↔◌, none, List, [], ◌∷◌, arith, eq_iff, All, ◌+◌}
use nous.Prelude.Time.{Time}
use nous.Domain.Lifecycle.{calls}
use nous.Domain.Plan.Lifecycle.{valid_iff, valid-can_transition_to}
use nous.Domain.Plan.{PlanStatus, unknown, Plan, validate, transition, PlanStep, check_steps}

-- A step with an identifier and a description.
abbrev pub IsFilled : PlanStep → Type 0
IsFilled step = (step.id ≢ "") × (step.description ≢ "")

check_steps_sound :
    (i : ℕ) (steps : List PlanStep) → check_steps i steps ≡ none → All IsFilled steps
unfolding check_steps
check_steps_sound i [] h = tt
check_steps_sound i (x ∷ xs) h = (
  (ground (arith, eq_iff x.id ""), ground (arith, eq_iff x.description "")),
  check_steps_sound (i + 1) xs (ground arith),
)

check_steps_complete :
    (i : ℕ) (steps : List PlanStep) → All IsFilled steps → check_steps i steps ≡ none
unfolding check_steps
check_steps_complete i [] h = refl
check_steps_complete i (x ∷ xs) h =
    ground (arith, eq_iff x.id "", eq_iff x.description "", check_steps_complete (i + 1) xs h.1)

-- The fields of a record that may be stored.
pub record IsValid (c : Plan) : Type 0 where
  pub id_set : c.id ≢ 0
  pub goal_set : c.goal_id ≢ 0
  pub known : (s : String) → c.status ≢ unknown s
  pub stepped : All IsFilled c.steps

validate_sound : (c : Plan) → validate c ≡ none → IsValid c
unfolding validate
validate_sound c h = record {
  id_set = ground arith;
  goal_set = ground arith;
  known = (valid_iff c.status).0 (ground arith);
  stepped = check_steps_sound 0 c.steps (ground arith);
}

validate_complete : (c : Plan) → IsValid c → validate c ≡ none
unfolding validate
validate_complete c v =
    ground (arith, check_steps_complete 0 c.steps v.stepped, (valid_iff c.status).1 v.known)

-- `Validate` returns no error exactly for the records that have every field in order.
pub plan_validate_iff : (c : Plan) → (validate c ≡ none) ↔ IsValid c
plan_validate_iff c = (validate_sound c, validate_complete c)

transition-validate :
    (c : Plan) (t : PlanStatus) (now : Time)
    → validate c ≡ none
    → validate (transition c t now).0 ≡ none
unfolding validate transition
transition-validate c t now h = ground (arith, valid-can_transition_to c.status t)

-- Calls of `Transition`, refused or not, keep a record valid.
pub plan_calls-IsValid :
    (c : Plan) (ops : List (PlanStatus × Time)) → IsValid c → IsValid (calls transition c ops)
unfolding calls
plan_calls-IsValid c [] v = v
plan_calls-IsValid c ((t, now) ∷ ops) v =
    plan_calls-IsValid (transition c t now).0 ops
      (validate_sound _ (transition-validate c t now (validate_complete c v)))
