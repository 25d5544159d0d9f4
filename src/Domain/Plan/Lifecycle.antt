-- ===== src/Domain/Plan/Lifecycle.antt =====
-- The lifecycle of a plan (internal/domain/goal.go: CanTransitionTo, Transition), against its edges.
use nous.Prelude.{
  String, ◌≡◌, refl, ◌≢◌, ◌↔◌, ◌⊎◌, inl, inr, true, none, some, List, arith, Bool-cases, eq_iff,
  str_eq_refl, ap,
}
use nous.Prelude.Time.{Time}
use nous.Domain.Errors.{invalid_transition}
use nous.Domain.Lifecycle.{Reach, calls, Follows, calls-Reach, Reach-stuck}
use nous.Domain.Plan.{
  PlanStatus, draft, active, completed, superseded, unknown, same, status_text, valid,
  can_transition_to, Plan, transition,
}

-- The states in which a plan ends.
pub data IsTerminal : PlanStatus → Type 0 where
  completed_ends : IsTerminal completed
  superseded_ends : IsTerminal superseded

-- The edges of the lifecycle that change the status.
pub data Edge : PlanStatus → PlanStatus → Type 0 where
  activate : Edge draft active
  complete : Edge active completed
  replace_draft : Edge draft superseded
  replace_active : Edge active superseded

ruleset edges = (activate, complete, replace_draft, replace_active)

pub same_iff : (s t : PlanStatus) → (same s t ≡ true) ↔ (s ≡ t)
same_iff (unknown s) (unknown t) = (λ h. ap unknown ((eq_iff s t).0 h), λ h. cc (h, str_eq_refl s))
same_iff s t = ground arith

edge_sound : (s t : PlanStatus) → can_transition_to s t ≡ true → (s ≡ t) ⊎ Edge s t
unfolding can_transition_to
edge_sound (unknown s) t h = ground (arith, same_iff (unknown s) t)
edge_sound s (unknown t) h = ground (arith)
edge_sound s t h = grind (arith, edges)

edge_complete : {s t : PlanStatus} → Edge s t → can_transition_to s t ≡ true
unfolding can_transition_to
edge_complete activate = refl
edge_complete complete = refl
edge_complete replace_draft = refl
edge_complete replace_active = refl

-- Where a status may go, it goes to a known one.
pub valid-can_transition_to :
    (s t : PlanStatus) → can_transition_to s t ≡ true → valid s ≡ true → valid t ≡ true
unfolding can_transition_to valid
valid-can_transition_to (unknown s) (unknown t) h v = cc
valid-can_transition_to s t h v = ground arith

pub valid_iff : (s : PlanStatus) → (valid s ≡ true) ↔ ((t : String) → s ≢ unknown t)
unfolding valid
valid_iff (unknown s) = (λ h. cc, λ h. absurd (h s refl))
valid_iff s = (λ h t e. cc, λ h. refl)

IsTerminal-stuck : {s : PlanStatus} → IsTerminal s → (u : PlanStatus) → ¬ Edge s u
IsTerminal-stuck completed_ends u e = elim e [ ]
IsTerminal-stuck superseded_ends u e = elim e [ ]

-- `Transition` moves the status to the target where that is the status itself or the end of an edge of
-- the lifecycle, and otherwise returns the error with both states and leaves the record as it was.
pub plan_transition_lem :
    (c : Plan) (t : PlanStatus) (now : Time)
    → (((transition c t now).1 ≡ none)
        × ((transition c t now).0.status ≡ t)
        × ((c.status ≡ t) ⊎ Edge c.status t))
      ⊎ (((transition c t now).1 ≡ some (invalid_transition (status_text c.status) (status_text t)))
          × ((transition c t now).0 ≡ c)
          × (¬ ((c.status ≡ t) ⊎ Edge c.status t)))
unfolding transition
plan_transition_lem c t now = elim (Bool-cases (can_transition_to c.status t)) [
  | inl h ↦ inl (ground arith, ground arith, edge_sound c.status t h)
  | inr h ↦ inr (ground arith, ground arith, λ e. cc (h, allowed e))
]
  where
    allowed : (c.status ≡ t) ⊎ Edge c.status t → can_transition_to c.status t ≡ true
    allowed (inl e) = ground (arith, same_iff c.status t)
    allowed (inr e) = edge_complete e

transition-Follows : Follows (λ (c : Plan). c.status) transition Edge
unfolding transition
transition-Follows = record { at = λ c t now. ground (arith, edge_sound c.status t) }

-- Whatever calls are made, refused or not, the status goes along a path of edges.
pub transition-Reach :
    (c : Plan) (ops : List (PlanStatus × Time))
    → Reach Edge c.status (calls transition c ops).status
transition-Reach c ops = calls-Reach transition-Follows c ops

-- A record whose status ends its lifecycle keeps that status under any calls.
pub plan_terminal :
    (c : Plan) (ops : List (PlanStatus × Time))
    → IsTerminal c.status
    → (calls transition c ops).status ≡ c.status
plan_terminal c ops h = Reach-stuck (IsTerminal-stuck h) (transition-Reach c ops)
