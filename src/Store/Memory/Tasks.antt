-- ===== src/Store/Memory/Tasks.antt =====
-- internal/store/memory/task_repo.go.
use nous.Prelude.{Bool, ◌&&◌, Option, none, some, String, List}
use nous.Prelude.Time.{before}
use nous.Domain.Errors.{Uuid, Error, Result, task_not_found}
use nous.Domain.Task.{Task, validate, same}
use nous.Store.Table.{lookup, insert, values}
use nous.Store.Arrange.{Arrange}
use nous.Store.Memory.{State}
use nous.Store.Memory.Query.{keep, limit_to, found, id_matches, name_matches, status_matches}
use nous.Ports.{TaskFilter}

module _ {F : Type 0} (string_of : Uuid → String) where
  unfoldable pub save : State F → Task → State F × Option Error
  save s x = elim (validate x) [
    | some e ↦ (s, some e)
    | none ↦ (record s { tasks = insert (string_of x.id) x s.tasks }, none)
  ]

  unfoldable pub get : State F → Uuid → Result Task
  get s id = found (lookup (string_of id) s.tasks) (task_not_found id)

unfoldable pub matches_task : Task → TaskFilter → Bool
unfolding id_matches name_matches status_matches
matches_task t f =
    id_matches f.goal_id t.goal_id
    && id_matches f.commitment_id t.commitment_id
    && name_matches f.assigned_to t.assigned_to
    && status_matches same t.status f.statuses

-- The `less` of `List`.
abbrev pub created_before : Task → Task → Bool
created_before a b = before a.created_at b.created_at

module _ {F : Type 0} (rows : Arrange Task) where
  unfoldable pub list : State F → TaskFilter → List Task
  list s f =
      limit_to f.limit (rows.arrange created_before (keep (λ t. matches_task t f) (values s.tasks)))
