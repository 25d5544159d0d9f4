-- ===== src/Examples/Store.antt =====
-- Worked inputs for internal/store/memory.
use mathlib.Core.List.{Perm}
use nous.Prelude.{
  ℕ, zero, suc, ap, sym, ◌∙◌, ◌≤◌, ◌≡◌, refl, ◌⊎◌, true, false, ◌&&◌, String, List, [], ◌∷◌, ◌++◌,
  ◌==◌, length, if◌then◌else◌,
}
use nous.Prelude.Int.{pos, pos_part, ltb_ℤ}
use nous.Prelude.Float.Milli.{Milli, num, milli_float}
use nous.Domain.Errors.{Uuid, ok}
use nous.Domain.Commitment.{Commitment, CommitmentStatus, is_active, validate}
use nous.Store.Table.{values}
use nous.Store.Arrange.{InOrder}
use nous.Store.Arrange.Insertion.{insertion}
use nous.Store.Memory.{State, new_state}
use nous.Store.Memory.Query.{keep, accepted}
use nous.Store.Memory.Commitments.{save, get, find_active, scans_before}
use nous.Store.Memory.Laws
use nous.Store.Memory.Scan
use nous.Examples.Domain.{promise}

-- A text for each identifier: as many strokes as its number.
abbrev pub strokes : Uuid → String
strokes zero = String.[]
strokes (suc n) = String.◌∷◌ "i" (strokes n)

abbrev pub stroke_count : String → ℕ
stroke_count String.[] = 0
stroke_count (String.◌∷◌ c s) = suc (stroke_count s)

pub stroke_count-strokes : (a : Uuid) → stroke_count (strokes a) ≡ a
stroke_count-strokes zero = refl
stroke_count-strokes (suc a) = ap suc (stroke_count-strokes a)

pub strokes_apart : (a b : Uuid) → strokes a ≡ strokes b → a ≡ b
strokes_apart a b e = sym (stroke_count-strokes a) ∙ ap stroke_count e ∙ stroke_count-strokes b

-- Three promises: a plain one, a riskier one, and one that is done.
abbrev pub stocked : State Milli
stocked = record new_state {
  commitments =
      (strokes 7, promise)
      ∷ (strokes 8, record promise { id = 8; risk_score = num 700 })
      ∷ (strokes 9, record promise { id = 9; status = CommitmentStatus.completed })
      ∷ [];
}

pub stocked_valid : Laws.AllValid strokes stocked
unfolding validate values
stocked_valid = (refl, (refl, (refl, tt)))

scan_order :
    find_active insertion stocked (pos 1) ≡ record promise { id = 8; risk_score = num 700 } ∷ []
unfolding find_active nous.Store.Memory.Query.limit_to nous.Store.Arrange.Insertion.sort_by keep
    values is_active nous.Store.Arrange.Insertion.insert_by scans_before
scan_order = refl

find_active_lem_example :
    (rest : List (Commitment Milli)) × Perm
      (find_active insertion stocked (pos 1) ++ rest)
      (keep (λ (c : Commitment Milli). is_active c.status) (values stocked.commitments))
    × Scan.IsRanked (find_active insertion stocked (pos 1) ++ rest)
    × ((ltb_ℤ (pos 0) (pos 1) ≡ false)
        ⊎ (length (find_active insertion stocked (pos 1)) ≤ pos_part (pos 1)))
    × ((rest ≡ [])
        ⊎ ((ltb_ℤ (pos 0) (pos 1) ≡ true)
            × (length (find_active insertion stocked (pos 1)) ≡ pos_part (pos 1))))
unfolding values
find_active_lem_example = Scan.find_active_lem insertion stocked (pos 1) (refl, (refl, (refl, tt)))

get-save_example :
    get strokes (save strokes stocked (record promise { id = 10; confidence = num 1_200 })).0 10 ≡ (
      if accepted (validate (record promise { id = 10; confidence = num 1_200 })) && 10 == 10
      then ok (record promise { id = 10; confidence = num 1_200 })
      else get strokes stocked 10)
get-save_example =
    Laws.get-save strokes stocked (record promise { id = 10; confidence = num 1_200 }) 10
      strokes_apart
