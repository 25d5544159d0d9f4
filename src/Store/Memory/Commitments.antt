-- ===== src/Store/Memory/Commitments.antt =====
-- internal/store/memory/commitment_repo.go.
use nous.Prelude.{
  Bool, true, false, ◌&&◌, not, Option, none, some, String, List, str_eq, if◌then◌else◌,
}
use nous.Prelude.Int.{ℤ}
use nous.Prelude.Time.{Time, utc, before, after, equal}
use nous.Prelude.Float.{Float64}
use nous.Domain.Errors.{Uuid, Error, Result, commitment_not_found}
use nous.Domain.Commitment.{Commitment, is_active, same, validate}
use nous.Ports.{CommitmentFilter}
use nous.Store.Table.{lookup, insert, values}
use nous.Store.Arrange.{Arrange}
use nous.Store.Memory.{State}
use nous.Store.Memory.Query.{keep, limit_to, found, status_matches}

-- The test on `DueBy`.
due_by_matches : Option Time → Option Time → Bool
due_by_matches none due = true
due_by_matches (some by) none = false
due_by_matches (some by) (some due) = not (after due by)

-- The `switch` on the due times in the `less` of `FindActive`; `rest` is the comparison below it.
unfoldable pub due_before : Option Time → Option Time → Bool → Bool
due_before (some a) none rest = true
due_before none (some b) rest = false
due_before (some a) (some b) rest = if not (equal a b) then before a b else rest
due_before none none rest = rest

module _ {F : Type 0} where
  unfoldable pub matches_commitment : Commitment F → CommitmentFilter → Bool
  unfolding due_by_matches status_matches
  matches_commitment c f =
      (if str_eq f.owner_id "" then true else str_eq c.owner_id f.owner_id)
      && status_matches same c.status f.statuses
      && due_by_matches f.due_by c.due_at

  -- The `less` of `List`.
  abbrev pub created_before : Commitment F → Commitment F → Bool
  created_before a b = before a.created_at b.created_at

module _ {F : Type 0} ⦃fl : Float64 F⦄ where
  -- The `less` of `FindActive`.
  unfoldable pub scans_before : Commitment F → Commitment F → Bool
  unfolding due_before
  scans_before a b =
      if not (fl.eq a.risk_score b.risk_score)
      then fl.lt b.risk_score a.risk_score
      else due_before a.due_at b.due_at (before a.created_at b.created_at)

  -- `id.String()` of the uuid package is `string_of`.
  module _ (string_of : Uuid → String) where
    unfoldable pub save : State F → Commitment F → State F × Option Error
    save s c = elim (validate c) [
      | some e ↦ (s, some e)
      | none ↦ (record s { commitments = insert (string_of c.id) c s.commitments }, none)
    ]

    unfoldable pub get : State F → Uuid → Result (Commitment F)
    get s id = found (lookup (string_of id) s.commitments) (commitment_not_found id)

    unfoldable pub update_risk : State F → Uuid → F → Time → State F × Option Error
    update_risk s id score evaluated_at = elim (lookup (string_of id) s.commitments) [
      | none ↦ (s, some (commitment_not_found id))
      | some c ↦ (
        record s {
          commitments =
              insert (string_of id)
                (record c {
                  risk_score = score;
                  last_evaluated_at = some (utc evaluated_at);
                  updated_at = utc evaluated_at;
                })
                s.commitments;
        },
        none,
      )
    ]

  module _ (rows : Arrange (Commitment F)) where
    unfoldable pub list : State F → CommitmentFilter → List (Commitment F)
    list s f =
        limit_to f.limit
          (rows.arrange created_before (keep (λ c. matches_commitment c f) (values s.commitments)))

    unfoldable pub find_active : State F → ℤ → List (Commitment F)
    find_active s limit =
        limit_to limit
          (rows.arrange scans_before (keep (λ c. is_active c.status) (values s.commitments)))
