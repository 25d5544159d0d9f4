-- ===== src/Intervene/Engine/Defaults.antt =====
-- The two engines together under their `DefaultConfig`s: when a tracked commitment interrupts.
use nous.Prelude.{◌≡◌, ◌≢◌, refl, Bool, true, false, none, String, List, arith}
use nous.Prelude.Time.{Time}
use nous.Prelude.Float.{Float64, InUnit, hundredths_le, le→not_lt}
use nous.Domain.Errors.{Uuid, ok}
use nous.Domain.Types.{ChronosSignal, MemoryRef}
use nous.Domain.Commitment.{Commitment}
use nous.Domain.Intervention.{escalation}
use nous.Risk.Engine
use nous.Risk.Engine.{evaluate_commitment}
use nous.Risk.Engine.Factors.{is_overdue, is_due_soon}
use nous.Risk.Engine.Defaults.{overdue_score, early_score, calm_score}
use nous.Intervene.Engine.{default_config, choose, maybe_intervene}
use nous.Intervene.Engine.Policy.{silent_iff, choose_exact}

module _ {F : Type 0} ⦃fl : Float64 F⦄ (sprintf : String → F → F → String → String) (id : Uuid)
    (c : Commitment F) (signals : List (ChronosSignal F)) (memories : List MemoryRef)
    (now : Time) where
  -- With the default weights and thresholds, an overdue commitment whose confidence lies in the unit
  -- interval is never passed over in silence.
  pub overdue_interrupts :
      InUnit c.confidence
      → is_overdue c.due_at now ≡ true
      → maybe_intervene sprintf default_config id c
          (evaluate_commitment Engine.default_config c signals memories now)
          now
        ≢ ok none
  overdue_interrupts u h e =
      let a = evaluate_commitment Engine.default_config c signals memories now in
      let low : fl.lt a.score (fl.hundredths 50) ≡ true =
        (silent_iff sprintf default_config id c a now).0 e in
      let high : fl.le (fl.hundredths 50) a.score ≡ true =
        fl.le_trans (fl.hundredths 50) (fl.hundredths 60) a.score
          (hundredths_le fl 50 60 (omega arith) (omega arith))
          (overdue_score c u signals memories now h) in
      cc (le→not_lt (fl.hundredths 50) a.score high)

  -- With the default weights and thresholds, a commitment whose confidence lies in the unit interval
  -- and that is neither overdue nor due soon gives no intervention, whatever Chronos reports.
  pub calm_is_silent :
      InUnit c.confidence
      → is_overdue c.due_at now ≡ false
      → is_due_soon {F = F} Engine.default_config c.due_at now ≡ false
      → maybe_intervene sprintf default_config id c
          (evaluate_commitment Engine.default_config c signals memories now)
          now
        ≡ ok none
  calm_is_silent u h k =
      let a = evaluate_commitment Engine.default_config c signals memories now in
      (silent_iff sprintf default_config id c a now).1 (
        fl.le_lt_trans a.score (fl.hundredths 37) (fl.hundredths 50)
          (calm_score c u signals memories now h k)
          (fl.hundredths_lt 37 50 (omega arith) (omega arith)))

  -- With the default weights and thresholds, a commitment whose confidence lies in the unit interval
  -- and for which escalation is chosen is overdue.
  pub escalation_needs_overdue :
      InUnit c.confidence
      → choose default_config (evaluate_commitment Engine.default_config c signals memories now)
        ≡ escalation
      → is_overdue c.due_at now ≡ true
  escalation_needs_overdue u e = decide_overdue (is_overdue c.due_at now) refl
    where
      decide_overdue : (b : Bool) → is_overdue c.due_at now ≡ b → b ≡ true
      decide_overdue true h = refl
      decide_overdue false h =
          let a = evaluate_commitment Engine.default_config c signals memories now in
          let high : fl.le (fl.hundredths 85) a.score ≡ true =
            (choose_exact default_config a).0.0 e in
          let low : fl.le a.score (fl.hundredths 68) ≡ true =
            early_score c u signals memories now h in
          let gap : fl.lt (fl.hundredths 68) (fl.hundredths 68) ≡ true =
            fl.lt_le_trans (fl.hundredths 68) (fl.hundredths 85) (fl.hundredths 68)
              (fl.hundredths_lt 68 85 (omega arith) (omega arith))
              (fl.le_trans (fl.hundredths 85) a.score (fl.hundredths 68) high low) in
          cc (gap, fl.lt_irrefl (fl.hundredths 68))
