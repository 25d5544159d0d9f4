-- ===== src/Domain/Task/Lifecycle.antt =====
-- The lifecycle of a task (internal/domain/task.go: CanTransitionTo, Transition), against its edges.
use nous.Prelude.{
  String, ◌≡◌, refl, ◌≢◌, ◌↔◌, ◌⊎◌, inl, inr, true, none, some, List, arith, Bool-cases, eq_iff,
  str_eq_refl, ap,
}
use nous.Prelude.Time.{Time}
use nous.Domain.Errors.{invalid_transition}
use nous.Domain.Lifecycle.{Reach, calls, Follows, calls-Reach, Reach-stuck}
use nous.Domain.Task.{
  TaskStatus, pending, assigned, running, blocked, completed, failed, cancelled, unknown, same,
  status_text, valid, can_transition_to, Task, transition,
}

-- The states in which a task ends.
pub data IsTerminal : TaskStatus → Type 0 where
  completed_ends : IsTerminal completed
  failed_ends : IsTerminal failed
  cancelled_ends : IsTerminal cancelled

-- The states in which work on a task goes on or can begin.
pub data IsReady : TaskStatus → Type 0 where
  pending_ready : IsReady pending
  assigned_ready : IsReady assigned
  running_ready : IsReady running

-- The edges of the lifecycle that change the status.
pub data Edge : TaskStatus → TaskStatus → Type 0 where
  assign : Edge pending assigned
  start : Edge assigned running
  unassign : Edge assigned pending
  requeue : Edge blocked pending
  reassign : Edge blocked assigned
  complete : Edge running completed
  fail : Edge running failed
  block : {s : TaskStatus} → IsReady s → Edge s blocked
  drop : {s : TaskStatus} → IsReady s → Edge s cancelled
  drop_blocked : Edge blocked cancelled

ruleset edges = (
  assign, start, unassign, requeue, reassign, complete, fail, block, drop, drop_blocked,
  pending_ready, assigned_ready, running_ready,
)

pub same_iff : (s t : TaskStatus) → (same s t ≡ true) ↔ (s ≡ t)
same_iff (unknown s) (unknown t) = (λ h. ap unknown ((eq_iff s t).0 h), λ h. cc (h, str_eq_refl s))
same_iff s t = ground arith

edge_sound : (s t : TaskStatus) → can_transition_to s t ≡ true → (s ≡ t) ⊎ Edge s t
unfolding can_transition_to
edge_sound (unknown s) t h = ground (arith, same_iff (unknown s) t)
edge_sound s (unknown t) h = ground (arith)
edge_sound s t h = grind (arith, edges)

edge_complete : {s t : TaskStatus} → Edge s t → can_transition_to s t ≡ true
unfolding can_transition_to
edge_complete assign = refl
edge_complete start = refl
edge_complete unassign = refl
edge_complete requeue = refl
edge_complete reassign = refl
edge_complete complete = refl
edge_complete fail = refl
edge_complete drop_blocked = refl
edge_complete (block pending_ready) = refl
edge_complete (block assigned_ready) = refl
edge_complete (block running_ready) = refl
edge_complete (drop pending_ready) = refl
edge_complete (drop assigned_ready) = refl
edge_complete (drop running_ready) = refl

-- Where a status may go, it goes to a known one.
pub valid-can_transition_to :
    (s t : TaskStatus) → can_transition_to s t ≡ true → valid s ≡ true → valid t ≡ true
unfolding can_transition_to valid
valid-can_transition_to (unknown s) (unknown t) h v = cc
valid-can_transition_to s t h v = ground arith

pub valid_iff : (s : TaskStatus) → (valid s ≡ true) ↔ ((t : String) → s ≢ unknown t)
unfolding valid
valid_iff (unknown s) = (λ h. cc, λ h. absurd (h s refl))
valid_iff s = (λ h t e. cc, λ h. refl)

IsTerminal-stuck : {s : TaskStatus} → IsTerminal s → (u : TaskStatus) → ¬ Edge s u
IsTerminal-stuck completed_ends u (block r) = elim r [ ]
IsTerminal-stuck completed_ends u (drop r) = elim r [ ]
IsTerminal-stuck failed_ends u (block r) = elim r [ ]
IsTerminal-stuck failed_ends u (drop r) = elim r [ ]
IsTerminal-stuck cancelled_ends u (block r) = elim r [ ]
IsTerminal-stuck cancelled_ends u (drop r) = elim r [ ]

-- `Transition` moves the status to the target where that is the status itself or the end of an edge of
-- the lifecycle, and otherwise returns the error with both states and leaves the record as it was.
pub task_transition_lem :
    (c : Task) (t : TaskStatus) (now : Time)
    → (((transition c t now).1 ≡ none)
        × ((transition c t now).0.status ≡ t)
        × ((c.status ≡ t) ⊎ Edge c.status t))
      ⊎ (((transition c t now).1 ≡ some (invalid_transition (status_text c.status) (status_text t)))
          × ((transition c t now).0 ≡ c)
          × (¬ ((c.status ≡ t) ⊎ Edge c.status t)))
unfolding transition
task_transition_lem c t now = elim (Bool-cases (can_transition_to c.status t)) [
  | inl h ↦ inl (ground arith, ground arith, edge_sound c.status t h)
  | inr h ↦ inr (ground arith, ground arith, λ e. cc (h, allowed e))
]
  where
    allowed : (c.status ≡ t) ⊎ Edge c.status t → can_transition_to c.status t ≡ true
    allowed (inl e) = ground (arith, same_iff c.status t)
    allowed (inr e) = edge_complete e

transition-Follows : Follows (λ (c : Task). c.status) transition Edge
unfolding transition
transition-Follows = record { at = λ c t now. ground (arith, edge_sound c.status t) }

-- Whatever calls are made, refused or not, the status goes along a path of edges.
pub transition-Reach :
    (c : Task) (ops : List (TaskStatus × Time))
    → Reach Edge c.status (calls transition c ops).status
transition-Reach c ops = calls-Reach transition-Follows c ops

-- A record whose status ends its lifecycle keeps that status under any calls.
pub task_terminal :
    (c : Task) (ops : List (TaskStatus × Time))
    → IsTerminal c.status
    → (calls transition c ops).status ≡ c.status
task_terminal c ops h = Reach-stuck (IsTerminal-stuck h) (transition-Reach c ops)
