-- ===== src/Domain/Commitment/Lifecycle.antt =====
-- The lifecycle of a commitment (internal/domain/commitment.go: IsActive, CanTransitionTo,
-- Transition), against a relation that lists its edges.
use nous.Prelude.{
  ◌≡◌, refl, ◌↔◌, ◌⊎◌, inl, inr, true, none, some, List, arith, Bool-cases, eq_iff, str_eq_refl, ap,
}
use nous.Prelude.Time.{Time}
use nous.Domain.Errors.{invalid_transition}
use nous.Domain.Lifecycle.{calls, Follows, calls-Reach, Reach-stuck}
use nous.Domain.Commitment.{
  CommitmentStatus, pending, in_progress, completed, missed, cancelled, unknown, same, status_text,
  status_text, can_transition_to, Commitment, transition,
}

-- The states in which a commitment ends.
pub data IsTerminal : CommitmentStatus → Type 0 where
  completed_ends : IsTerminal completed
  missed_ends : IsTerminal missed
  cancelled_ends : IsTerminal cancelled

-- The edges of the lifecycle that change the status.
pub data Edge : CommitmentStatus → CommitmentStatus → Type 0 where
  start : Edge pending in_progress
  finish_pending : {t : CommitmentStatus} → IsTerminal t → Edge pending t
  finish_started : {t : CommitmentStatus} → IsTerminal t → Edge in_progress t

ruleset edges = (start, finish_pending, finish_started, completed_ends, missed_ends, cancelled_ends)

pub same_iff : (s t : CommitmentStatus) → (same s t ≡ true) ↔ (s ≡ t)
same_iff (unknown s) (unknown t) = (λ h. ap unknown ((eq_iff s t).0 h), λ h. cc (h, str_eq_refl s))
same_iff s t = ground arith

edge_sound : (s t : CommitmentStatus) → can_transition_to s t ≡ true → (s ≡ t) ⊎ Edge s t
unfolding can_transition_to
edge_sound (unknown s) t h = ground (arith, same_iff (unknown s) t)
edge_sound s (unknown t) h = ground (arith)
edge_sound s t h = grind (arith, edges)

edge_complete : {s t : CommitmentStatus} → Edge s t → can_transition_to s t ≡ true
unfolding can_transition_to
edge_complete start = refl
edge_complete (finish_pending completed_ends) = refl
edge_complete (finish_pending missed_ends) = refl
edge_complete (finish_pending cancelled_ends) = refl
edge_complete (finish_started completed_ends) = refl
edge_complete (finish_started missed_ends) = refl
edge_complete (finish_started cancelled_ends) = refl

IsTerminal-stuck : {s : CommitmentStatus} → IsTerminal s → (u : CommitmentStatus) → ¬ Edge s u
IsTerminal-stuck completed_ends u e = elim e [ ]
IsTerminal-stuck missed_ends u e = elim e [ ]
IsTerminal-stuck cancelled_ends u e = elim e [ ]

module _ {F : Type 0} where
  -- `Transition` moves the status to the target where that is the status itself or the end of an edge of
  -- the lifecycle, and otherwise returns the error with both states and leaves the record as it was.
  pub transition_lem :
      (c : Commitment F) (t : CommitmentStatus) (now : Time)
      → (((transition c t now).1 ≡ none)
          × ((transition c t now).0.status ≡ t)
          × ((c.status ≡ t) ⊎ Edge c.status t))
        ⊎ (((transition c t now).1
              ≡ some (invalid_transition (status_text c.status) (status_text t)))
            × ((transition c t now).0 ≡ c)
            × (¬ ((c.status ≡ t) ⊎ Edge c.status t)))
  unfolding transition
  transition_lem c t now = elim (Bool-cases (can_transition_to c.status t)) [
    | inl h ↦ inl (ground arith, ground arith, edge_sound c.status t h)
    | inr h ↦ inr (ground arith, ground arith, λ e. cc (h, allowed e))
  ]
    where
      allowed : (c.status ≡ t) ⊎ Edge c.status t → can_transition_to c.status t ≡ true
      allowed (inl e) = ground (arith, same_iff c.status t)
      allowed (inr e) = edge_complete e

  transition-Follows : Follows (λ (c : Commitment F). c.status) transition Edge
  unfolding transition
  transition-Follows = record { at = λ c t now. ground (arith, edge_sound c.status t) }

  -- A completed, missed or cancelled commitment keeps its status.
  pub calls_terminal :
      (c : Commitment F) (ops : List (CommitmentStatus × Time))
      → IsTerminal c.status
      → (calls transition c ops).status ≡ c.status
  calls_terminal c ops h = Reach-stuck (IsTerminal-stuck h) (calls-Reach transition-Follows c ops)
