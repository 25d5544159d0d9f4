-- ===== src/Risk/Engine/Bounds.antt =====
-- The range of the score of internal/risk/engine.go.
use nous.Prelude.{◌≡◌, true, false, List, arith, if◌then◌else◌}
use nous.Prelude.Time.{Time}
use nous.Prelude.Float.{
  Float64, InUnit, IsNumber, outside_unit, hundredths_le, zero_in_unit, le→not_lt, le_refl,
}
use nous.Domain.Types.{ChronosSignal, MemoryRef}
use nous.Domain.Commitment.{Commitment}
use nous.Risk.Engine.{Config, clamp, tally, evaluate_commitment}

module _ {F : Type 0} ⦃fl : Float64 F⦄ where
  clamp_outside : (x : F) → outside_unit (clamp x) ≡ false
  unfolding clamp
  clamp_outside x = ground (
    arith,
    zero_in_unit fl,
    fl.lt_irrefl (fl.hundredths 100),
    le→not_lt (fl.hundredths 0) (fl.hundredths 100),
    hundredths_le fl 0 100,
  )

  -- The score passes the range test of `Commitment.Validate`, whatever the weights, the confidence
  -- and the signals.
  pub score_in_range :
      (cfg : Config F) (c : Commitment F) (signals : List (ChronosSignal F))
      (memories : List MemoryRef) (now : Time)
      → outside_unit (evaluate_commitment cfg c signals memories now).score ≡ false
  unfolding evaluate_commitment
  score_in_range cfg c signals memories now = clamp_outside (tally cfg c signals now).score

  -- Weights between 0 and 1, an overdue commitment weighing at least one that is due soon.
  pub record IsSane (cfg : Config F) : Type 0 where
    pub overdue : InUnit cfg.overdue_weight
    pub due_soon : InUnit cfg.due_soon_weight
    pub confidence : InUnit cfg.confidence_weight
    pub signal : InUnit cfg.signal_weight
    pub grades : fl.le cfg.due_soon_weight cfg.overdue_weight ≡ true

  abbrev pub IsNonneg : F → Type 0
  IsNonneg x = fl.le (fl.hundredths 0) x ≡ true

  pub IsNonneg-IsNumber : (x : F) → IsNonneg x → IsNumber x
  IsNonneg-IsNumber x h = ground (
    arith,
    fl.le_def (fl.hundredths 0) x,
    fl.lt_ordered (fl.hundredths 0) x,
    fl.eq_sym (fl.hundredths 0) x,
    fl.le_def x (fl.hundredths 0),
    fl.le_trans x (fl.hundredths 0) x,
    fl.le_def x x,
    fl.lt_irrefl x,
  )

  pub le_refl_nonneg : (x : F) → IsNonneg x → fl.le x x ≡ true
  le_refl_nonneg x h = le_refl x (IsNonneg-IsNumber x h)

  pub clamp_nonneg :
      (x : F)
      → IsNonneg x
      → clamp x ≡ (if fl.lt (fl.hundredths 100) x then fl.hundredths 100 else x)
  unfolding clamp
  clamp_nonneg x h = ground (
    arith,
    le→not_lt (fl.hundredths 0) x,
    le→not_lt (fl.hundredths 0) (fl.hundredths 100),
    hundredths_le fl 0 100,
  )

  pub clamp_mono : (x y : F) → IsNonneg x → fl.le x y ≡ true → fl.le (clamp x) (clamp y) ≡ true
  clamp_mono x y n h =
      let m : IsNonneg y = fl.le_trans (fl.hundredths 0) x y n h in
      rw (clamp_nonneg x n, clamp_nonneg y m)
        (ground (
          arith,
          fl.lt_le_trans (fl.hundredths 100) x y,
          fl.le_total (fl.hundredths 100) x,
          fl.hundredths_number 100,
          IsNonneg-IsNumber x n,
          hundredths_le fl 100 100,
        ))

  pub clamp-InUnit : (x : F) → IsNonneg x → InUnit (clamp x)
  clamp-InUnit x n = rw (clamp_nonneg x n) (
      ground (
        arith,
        fl.le_total (fl.hundredths 100) x,
        fl.hundredths_number 100,
        IsNonneg-IsNumber x n,
        hundredths_le fl 100 100,
        hundredths_le fl 0 100,
      ))
