-- ===== src/Store/Memory/Decisions.antt =====
-- internal/store/memory/decision_repo.go.
use nous.Prelude.{Bool, Option, none, some, String, List, str_eq}
use nous.Prelude.Int.{ℤ}
use nous.Prelude.Time.{after}
use nous.Prelude.Float.{Float64}
use nous.Domain.Errors.{Uuid, Error, Result, decision_not_found}
use nous.Domain.Decision.{Decision, validate}
use nous.Store.Table.{lookup, insert, values}
use nous.Store.Arrange.{Arrange}
use nous.Store.Memory.{State}
use nous.Store.Memory.Query.{keep, limit_to, found}

module _ {F : Type 0} ⦃fl : Float64 F⦄ (string_of : Uuid → String) where
  unfoldable pub save : State F → Decision F → State F × Option Error
  save s x = elim (validate x) [
    | some e ↦ (s, some e)
    | none ↦ (record s { decisions = insert (string_of x.id) x s.decisions }, none)
  ]

  unfoldable pub get : State F → Uuid → Result (Decision F)
  get s id = found (lookup (string_of id) s.decisions) (decision_not_found id)

module _ {F : Type 0} (rows : Arrange (Decision F)) where
  -- The `less` of `ListBySubject`: most recent first.
  abbrev pub created_after : Decision F → Decision F → Bool
  created_after a b = after a.created_at b.created_at

  unfoldable pub list_by_subject : State F → String → ℤ → List (Decision F)
  list_by_subject s subject limit =
      limit_to limit
        (rows.arrange created_after (keep (λ d. str_eq d.subject subject) (values s.decisions)))
