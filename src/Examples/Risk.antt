-- ===== src/Examples/Risk.antt =====
-- Worked inputs for internal/risk and internal/intervention, under the default settings.
use nous.Prelude.{◌*◌, ◌≡◌, ◌≢◌, refl, true, none, some, String, [], ◌∷◌, arith, trim_space}
use nous.Prelude.Time.{hour}
use nous.Prelude.Float.Milli.{Milli, num, milli_float, le_milli}
use nous.Domain.Errors.{ok}
use nous.Domain.Types.{ChronosSignal}
use nous.Domain.Intervention.{Intervention, escalation, pending}
use nous.Domain.Intervention.Validity as Nudges
use nous.Risk.Types.{RiskAssessment}
use nous.Risk.Engine
use nous.Risk.Engine.{evaluate_commitment, clamp, weights}
use nous.Risk.Engine.Monotone
use nous.Risk.Engine.Factors
use nous.Risk.Engine.Factors.{is_overdue, is_due_soon, is_empty, lists_type, sum_weights}
use nous.Risk.Engine.Defaults as Scores
use nous.Intervene.Engine as Policy
use nous.Intervene.Engine.{choose, top_reason, maybe_intervene}
use nous.Intervene.Engine.Policy as Rules
use nous.Intervene.Engine.Policy.{NotHeavier}
use nous.Intervene.Engine.Defaults as Verdicts
use nous.Examples.Domain.{promise}

-- A message that leaves the numbers out.
abbrev pub worded : String → Milli → Milli → String → String
worded d x y reason = "Commitment at risk."

abbrev pub blip : ChronosSignal Milli
blip = record {
  id = 11;
  pattern_name = "pattern_break";
  scope_id = 12;
  series = 13;
  confidence = num 500;
  detected_at = 900;
  entities = [];
}

overdue_interrupts_example :
    maybe_intervene worded Policy.default_config 1 promise
      (evaluate_commitment Engine.default_config promise [] [] 2000)
      2000
    ≢ ok none
overdue_interrupts_example =
    Verdicts.overdue_interrupts worded 1 promise [] [] 2000 (refl, refl) refl

-- The same commitment three hours before it is due.
calm_is_silent_example :
    maybe_intervene worded Policy.default_config 1
      (record promise { due_at = some (3 * hour) })
      (evaluate_commitment Engine.default_config
        (record promise { due_at = some (3 * hour) })
        (blip ∷ [])
        []
        0)
      0
    ≡ ok none
calm_is_silent_example =
    Verdicts.calm_is_silent worded 1 (record promise { due_at = some (3 * hour) }) (blip ∷ []) [] 0
      (refl, refl) refl refl

escalates :
    choose Policy.default_config
      (evaluate_commitment Engine.default_config promise (blip ∷ []) [] 2000)
    ≡ escalation
unfolding choose evaluate_commitment
escalates = refl

escalation_needs_overdue_example : is_overdue promise.due_at 2000 ≡ true
escalation_needs_overdue_example =
    Verdicts.escalation_needs_overdue worded 1 promise (blip ∷ []) [] 2000 (refl, refl) escalates

score_mono_example :
    le_milli
      (evaluate_commitment Engine.default_config promise [] [] 900).score
      (evaluate_commitment Engine.default_config promise [] [] 2000).score
    ≡ true
score_mono_example =
    Monotone.score_mono Engine.default_config (Scores.default-IsSane milli_float) promise
      (refl, refl) [] [] 900 2000 (omega arith)

score_explained_example :
    (evaluate_commitment Engine.default_config promise (blip ∷ []) [] 2000).score
    ≡ clamp (
        sum_weights
          (num 0)
          (evaluate_commitment Engine.default_config promise (blip ∷ []) [] 2000).factors)
score_explained_example = Factors.score_explained Engine.default_config promise (blip ∷ []) [] 2000

abbrev assessed : RiskAssessment Milli
assessed = record {
  score = num 780;
  factors =
      record { type = "confidence"; weight = num 180; reason = "tracked" }
      ∷ record { type = "overdue"; weight = num 600; reason = "late" }
      ∷ [];
  confidence = num 900;
}

worded_speaks : trim_space "Commitment at risk." ≢ ""
unfolding trim_space
worded_speaks e = cc e

fires_example :
    (iv : Intervention) × (maybe_intervene worded Policy.default_config 1 promise assessed 2000
      ≡ ok (some iv))
    × Nudges.IsValid iv
    × (iv.status ≡ pending)
    × (iv.type ≡ choose Policy.default_config assessed)
    × (iv.commitment_id ≡ some promise.id)
    × (iv.suggested_action ≡ none)
fires_example =
    Rules.fires worded Policy.default_config 1 promise assessed 2000 (omega arith)
      (λ d x y r. worded_speaks) refl
