-- ===== src/Domain/Intervention/Lifecycle.antt =====
-- The lifecycle of an intervention (internal/domain/intervention.go: CanTransitionTo, Resolve), against its edges.
use nous.Prelude.{
  String, ◌≡◌, refl, ◌≢◌, ◌↔◌, ◌⊎◌, inl, inr, true, none, some, List, arith, Bool-cases, eq_iff,
  str_eq_refl, ap,
}
use nous.Prelude.Time.{Time}
use nous.Domain.Errors.{invalid_transition}
use nous.Domain.Lifecycle.{Reach, calls, Follows, calls-Reach, Reach-stuck}
use nous.Domain.Intervention.{
  InterventionStatus, pending, accepted, rejected, expired, executed, unknown, same, status_text,
  valid, can_transition_to, Intervention, resolve,
}

-- The states that no edge leaves.
pub data IsTerminal : InterventionStatus → Type 0 where
  rejected_ends : IsTerminal rejected
  expired_ends : IsTerminal expired
  executed_ends : IsTerminal executed

-- The edges of the lifecycle that change the status.
pub data Edge : InterventionStatus → InterventionStatus → Type 0 where
  accept : Edge pending accepted
  reject : Edge pending rejected
  expire : Edge pending expired
  execute : Edge accepted executed

ruleset edges = (accept, reject, expire, execute)

pub same_iff : (s t : InterventionStatus) → (same s t ≡ true) ↔ (s ≡ t)
same_iff (unknown s) (unknown t) = (λ h. ap unknown ((eq_iff s t).0 h), λ h. cc (h, str_eq_refl s))
same_iff s t = ground arith

edge_sound : (s t : InterventionStatus) → can_transition_to s t ≡ true → (s ≡ t) ⊎ Edge s t
unfolding can_transition_to
edge_sound (unknown s) t h = ground (arith, same_iff (unknown s) t)
edge_sound s (unknown t) h = ground (arith)
edge_sound s t h = grind (arith, edges)

edge_complete : {s t : InterventionStatus} → Edge s t → can_transition_to s t ≡ true
unfolding can_transition_to
edge_complete accept = refl
edge_complete reject = refl
edge_complete expire = refl
edge_complete execute = refl

-- Where a status may go, it goes to a known one.
pub valid-can_transition_to :
    (s t : InterventionStatus) → can_transition_to s t ≡ true → valid s ≡ true → valid t ≡ true
unfolding can_transition_to valid
valid-can_transition_to (unknown s) (unknown t) h v = cc
valid-can_transition_to s t h v = ground arith

pub valid_iff : (s : InterventionStatus) → (valid s ≡ true) ↔ ((t : String) → s ≢ unknown t)
unfolding valid
valid_iff (unknown s) = (λ h. cc, λ h. absurd (h s refl))
valid_iff s = (λ h t e. cc, λ h. refl)

IsTerminal-stuck : {s : InterventionStatus} → IsTerminal s → (u : InterventionStatus) → ¬ Edge s u
IsTerminal-stuck rejected_ends u e = elim e [ ]
IsTerminal-stuck expired_ends u e = elim e [ ]
IsTerminal-stuck executed_ends u e = elim e [ ]

-- `Resolve` moves the status to the target where that is the status itself or the end of an edge of
-- the lifecycle, and otherwise returns the error with both states and leaves the record as it was.
pub resolve_lem :
    (c : Intervention) (t : InterventionStatus) (now : Time)
    → (((resolve c t now).1 ≡ none)
        × ((resolve c t now).0.status ≡ t)
        × ((c.status ≡ t) ⊎ Edge c.status t))
      ⊎ (((resolve c t now).1 ≡ some (invalid_transition (status_text c.status) (status_text t)))
          × ((resolve c t now).0 ≡ c)
          × (¬ ((c.status ≡ t) ⊎ Edge c.status t)))
unfolding resolve
resolve_lem c t now = elim (Bool-cases (can_transition_to c.status t)) [
  | inl h ↦ inl (ground arith, ground arith, edge_sound c.status t h)
  | inr h ↦ inr (ground arith, ground arith, λ e. cc (h, allowed e))
]
  where
    allowed : (c.status ≡ t) ⊎ Edge c.status t → can_transition_to c.status t ≡ true
    allowed (inl e) = ground (arith, same_iff c.status t)
    allowed (inr e) = edge_complete e

resolve-Follows : Follows (λ (c : Intervention). c.status) resolve Edge
unfolding resolve
resolve-Follows = record { at = λ c t now. ground (arith, edge_sound c.status t) }

-- Whatever calls are made, refused or not, the status goes along a path of edges.
pub resolve-Reach :
    (c : Intervention) (ops : List (InterventionStatus × Time))
    → Reach Edge c.status (calls resolve c ops).status
resolve-Reach c ops = calls-Reach resolve-Follows c ops

-- A record whose status ends its lifecycle keeps that status under any calls.
pub resolve_terminal :
    (c : Intervention) (ops : List (InterventionStatus × Time))
    → IsTerminal c.status
    → (calls resolve c ops).status ≡ c.status
resolve_terminal c ops h = Reach-stuck (IsTerminal-stuck h) (resolve-Reach c ops)
