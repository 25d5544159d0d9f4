-- ===== src/Examples/Domain.antt =====
-- Worked inputs for the aggregates of internal/domain.
use nous.Prelude.{◌≡◌, refl, ◌⊎◌, none, some, List, [], ◌∷◌}
use nous.Prelude.Time.{Time}
use nous.Prelude.Float.Milli.{Milli, num, milli_float}
use nous.Domain.Errors.{ok, invalid_transition}
use nous.Domain.Lifecycle.{calls}
use nous.Domain.Commitment
use nous.Domain.Commitment.{
  Commitment, CommitmentDraft, CommitmentStatus, new_commitment, to_commitment, validate,
  status_text,
}
use nous.Domain.Commitment.Validity
use nous.Domain.Commitment.Lifecycle as Commitments

abbrev pub promise : Commitment Milli
promise = record {
  id = 7;
  owner_id = "u1";
  description = "send the report";
  source_refs = [];
  entities = [];
  due_at = some 1000;
  status = CommitmentStatus.pending;
  confidence = num 900;
  risk_score = num 0;
  last_evaluated_at = none;
  created_at = 10;
  updated_at = 10;
}

pub promise_valid : validate promise ≡ none
unfolding validate
promise_valid = refl

-- The constructor trims its inputs and accepts them.
made : new_commitment 7 " u1 " "send the report\n" (some 1000) (num 900) 10 ≡ ok promise
unfolding new_commitment
made = refl

transition_lem_example :
    (((Commitment.transition promise CommitmentStatus.completed 20).1 ≡ none)
      × ((Commitment.transition promise CommitmentStatus.completed 20).0.status
          ≡ CommitmentStatus.completed)
      × ((promise.status ≡ CommitmentStatus.completed)
          ⊎ Commitments.Edge promise.status CommitmentStatus.completed))
    ⊎ (((Commitment.transition promise CommitmentStatus.completed 20).1
          ≡ some (
              invalid_transition
                (status_text promise.status)
                (status_text CommitmentStatus.completed)))
        × ((Commitment.transition promise CommitmentStatus.completed 20).0 ≡ promise)
        × (¬ (
            (promise.status ≡ CommitmentStatus.completed)
            ⊎ Commitments.Edge promise.status CommitmentStatus.completed)))
transition_lem_example = Commitments.transition_lem promise CommitmentStatus.completed 20

-- A start, a refused return to pending, and the end.
abbrev story : List (CommitmentStatus × Time)
story =
    (CommitmentStatus.in_progress, 20)
    ∷ (CommitmentStatus.pending, 30)
    ∷ (CommitmentStatus.completed, 40)
    ∷ []

story_ends : (calls Commitment.transition promise story).status ≡ CommitmentStatus.completed
unfolding calls Commitment.transition
story_ends = refl

calls-IsValid_example : Validity.IsValid (calls Commitment.transition promise story)
calls-IsValid_example =
    Validity.calls-IsValid promise story ((Validity.validate_iff promise).0 promise_valid)

abbrev pub sketch : CommitmentDraft Milli
sketch = record {
  owner_id = "u1";
  description = "send the report";
  due_at = some 1000;
  confidence = num 900;
  source_refs = [];
  entities = [];
}
