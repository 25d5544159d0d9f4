-- ===== src/Store/Memory/Interventions.antt =====
-- internal/store/memory/intervention_repo.go.
use nous.Prelude.{Bool, true, ◌&&◌, not, Option, none, some, String, List}
use nous.Prelude.Time.{Time, before, after}
use nous.Domain.Errors.{Uuid, Error, Result, intervention_not_found}
use nous.Domain.Intervention.{Intervention, validate, same}
use nous.Store.Table.{lookup, insert, values}
use nous.Store.Arrange.{Arrange}
use nous.Store.Memory.{State}
use nous.Store.Memory.Query.{keep, limit_to, found, id_matches, status_matches}
use nous.Ports.{InterventionFilter}

module _ {F : Type 0} (string_of : Uuid → String) where
  unfoldable pub save : State F → Intervention → State F × Option Error
  save s x = elim (validate x) [
    | some e ↦ (s, some e)
    | none ↦ (record s { interventions = insert (string_of x.id) x s.interventions }, none)
  ]

  unfoldable pub get : State F → Uuid → Result Intervention
  get s id = found (lookup (string_of id) s.interventions) (intervention_not_found id)

-- The test on `Since`.
since_matches : Option Time → Time → Bool
since_matches none t = true
since_matches (some since) t = not (before t since)

unfoldable pub matches_intervention : Intervention → InterventionFilter → Bool
unfolding id_matches status_matches since_matches
matches_intervention iv f =
    id_matches f.commitment_id iv.commitment_id
    && id_matches f.task_id iv.task_id
    && status_matches same iv.status f.statuses
    && since_matches f.since iv.triggered_at

-- The `less` of `List`: most recent first.
abbrev pub triggered_after : Intervention → Intervention → Bool
triggered_after a b = after a.triggered_at b.triggered_at

module _ {F : Type 0} (rows : Arrange Intervention) where
  unfoldable pub list : State F → InterventionFilter → List Intervention
  list s f = limit_to f.limit (
      rows.arrange triggered_after
        (keep (λ iv. matches_intervention iv f) (values s.interventions)))
