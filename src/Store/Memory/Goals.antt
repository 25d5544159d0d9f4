-- ===== src/Store/Memory/Goals.antt =====
-- internal/store/memory/goal_repo.go.
use nous.Prelude.{Bool, Option, none, some, String, List, str_eq}
use nous.Prelude.Int.{ℤ}
use nous.Prelude.Time.{after}
use nous.Domain.Errors.{Uuid, Error, Result, goal_not_found}
use nous.Domain.Goal.{Goal, validate}
use nous.Store.Table.{lookup, insert, values}
use nous.Store.Arrange.{Arrange}
use nous.Store.Memory.{State}
use nous.Store.Memory.Query.{keep, limit_to, found}

module _ {F : Type 0} (string_of : Uuid → String) where
  unfoldable pub save : State F → Goal → State F × Option Error
  save s x = elim (validate x) [
    | some e ↦ (s, some e)
    | none ↦ (record s { goals = insert (string_of x.id) x s.goals }, none)
  ]

  unfoldable pub get : State F → Uuid → Result Goal
  get s id = found (lookup (string_of id) s.goals) (goal_not_found id)

-- The `less` of `ListByOwner`: most recent first.
abbrev pub created_after : Goal → Goal → Bool
created_after a b = after a.created_at b.created_at

module _ {F : Type 0} (rows : Arrange Goal) where
  unfoldable pub list_by_owner : State F → String → ℤ → List Goal
  list_by_owner s owner_id limit =
      limit_to limit
        (rows.arrange created_after (keep (λ g. str_eq g.owner_id owner_id) (values s.goals)))
