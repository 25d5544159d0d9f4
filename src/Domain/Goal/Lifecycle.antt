-- ===== src/Domain/Goal/Lifecycle.antt =====
-- The lifecycle of a goal (internal/domain/goal.go: CanTransitionTo, Transition), against its edges.
use nous.Prelude.{
  String, ◌≡◌, refl, ◌≢◌, ◌↔◌, ◌⊎◌, inl, inr, true, none, some, List, arith, Bool-cases, eq_iff,
  str_eq_refl, ap,
}
use nous.Prelude.Time.{Time}
use nous.Domain.Errors.{invalid_transition}
use nous.Domain.Lifecycle.{Reach, calls, Follows, calls-Reach, Reach-stuck}
use nous.Domain.Goal.{
  GoalStatus, opened, planned, active, completed, cancelled, unknown, same, status_text, valid,
  can_transition_to, Goal, transition,
}

-- The states in which a goal ends.
pub data IsTerminal : GoalStatus → Type 0 where
  completed_ends : IsTerminal completed
  cancelled_ends : IsTerminal cancelled

-- The edges of the lifecycle that change the status.
pub data Edge : GoalStatus → GoalStatus → Type 0 where
  plan : Edge opened planned
  activate : Edge planned active
  complete : Edge active completed
  drop_open : Edge opened cancelled
  drop_planned : Edge planned cancelled
  drop_active : Edge active cancelled

ruleset edges = (plan, activate, complete, drop_open, drop_planned, drop_active)

pub same_iff : (s t : GoalStatus) → (same s t ≡ true) ↔ (s ≡ t)
same_iff (unknown s) (unknown t) = (λ h. ap unknown ((eq_iff s t).0 h), λ h. cc (h, str_eq_refl s))
same_iff s t = ground arith

edge_sound : (s t : GoalStatus) → can_transition_to s t ≡ true → (s ≡ t) ⊎ Edge s t
unfolding can_transition_to
edge_sound (unknown s) t h = ground (arith, same_iff (unknown s) t)
edge_sound s (unknown t) h = ground (arith)
edge_sound s t h = grind (arith, edges)

edge_complete : {s t : GoalStatus} → Edge s t → can_transition_to s t ≡ true
unfolding can_transition_to
edge_complete plan = refl
edge_complete activate = refl
edge_complete complete = refl
edge_complete drop_open = refl
edge_complete drop_planned = refl
edge_complete drop_active = refl

-- Where a status may go, it goes to a known one.
pub valid-can_transition_to :
    (s t : GoalStatus) → can_transition_to s t ≡ true → valid s ≡ true → valid t ≡ true
unfolding can_transition_to valid
valid-can_transition_to (unknown s) (unknown t) h v = cc
valid-can_transition_to s t h v = ground arith

pub valid_iff : (s : GoalStatus) → (valid s ≡ true) ↔ ((t : String) → s ≢ unknown t)
unfolding valid
valid_iff (unknown s) = (λ h. cc, λ h. absurd (h s refl))
valid_iff s = (λ h t e. cc, λ h. refl)

IsTerminal-stuck : {s : GoalStatus} → IsTerminal s → (u : GoalStatus) → ¬ Edge s u
IsTerminal-stuck completed_ends u e = elim e [ ]
IsTerminal-stuck cancelled_ends u e = elim e [ ]

-- `Transition` moves the status to the target where that is the status itself or the end of an edge of
-- the lifecycle, and otherwise returns the error with both states and leaves the record as it was.
pub goal_transition_lem :
    (c : Goal) (t : GoalStatus) (now : Time)
    → (((transition c t now).1 ≡ none)
        × ((transition c t now).0.status ≡ t)
        × ((c.status ≡ t) ⊎ Edge c.status t))
      ⊎ (((transition c t now).1 ≡ some (invalid_transition (status_text c.status) (status_text t)))
          × ((transition c t now).0 ≡ c)
          × (¬ ((c.status ≡ t) ⊎ Edge c.status t)))
unfolding transition
goal_transition_lem c t now = elim (Bool-cases (can_transition_to c.status t)) [
  | inl h ↦ inl (ground arith, ground arith, edge_sound c.status t h)
  | inr h ↦ inr (ground arith, ground arith, λ e. cc (h, allowed e))
]
  where
    allowed : (c.status ≡ t) ⊎ Edge c.status t → can_transition_to c.status t ≡ true
    allowed (inl e) = ground (arith, same_iff c.status t)
    allowed (inr e) = edge_complete e

transition-Follows : Follows (λ (c : Goal). c.status) transition Edge
unfolding transition
transition-Follows = record { at = λ c t now. ground (arith, edge_sound c.status t) }

-- Whatever calls are made, refused or not, the status goes along a path of edges.
pub transition-Reach :
    (c : Goal) (ops : List (GoalStatus × Time))
    → Reach Edge c.status (calls transition c ops).status
transition-Reach c ops = calls-Reach transition-Follows c ops

-- A record whose status ends its lifecycle keeps that status under any calls.
pub goal_terminal :
    (c : Goal) (ops : List (GoalStatus × Time))
    → IsTerminal c.status
    → (calls transition c ops).status ≡ c.status
goal_terminal c ops h = Reach-stuck (IsTerminal-stuck h) (transition-Reach c ops)
