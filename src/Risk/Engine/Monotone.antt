-- ===== src/Risk/Engine/Monotone.antt =====
-- How the score of internal/risk/engine.go moves with time: the three charges keep a tally from
-- falling, and none of them turns the order of two tallies round.
use nous.Prelude.{◌≤◌, ◌≡◌, true, false, Option, none, some, List, [], ◌∷◌, arith}
use nous.Prelude.Int.{leb_ℤ}
use nous.Prelude.Time.{Time, Duration, after, sub}
use nous.Prelude.Float.{Float64, InUnit, hundredths_le}
use nous.Domain.Types.{ChronosSignal, MemoryRef}
use nous.Domain.Commitment.{Commitment}
use nous.Risk.Engine.{
  Config, Tally, due_factor, confidence_factor, signal_factor, tally, evaluate_commitment,
}
use nous.Risk.Engine.Bounds.{IsSane, IsNonneg, le_refl_nonneg, clamp_mono, clamp-InUnit}

after_mono : (due now later : Time) → now ≤ later → after now due ≡ true → after later due ≡ true
after_mono due now later h k = ground arith

window_mono :
    (due now later : Time) (w : Duration)
    → now ≤ later
    → after later due ≡ false
    → leb_ℤ (sub due now) w ≡ true
    → leb_ℤ (sub due later) w ≡ true
window_mono due now later w h a k = ground arith

module _ {F : Type 0} ⦃fl : Float64 F⦄ (cfg : Config F) (sane : IsSane cfg) where
  pub due-IsNonneg :
      (due : Option Time) (now : Time) (t : Tally F)
      → IsNonneg t.score
      → IsNonneg (due_factor cfg due now t).score
  unfolding due_factor
  due-IsNonneg none now t n = n
  due-IsNonneg (some due) now t n = ground (
    arith,
    fl.add_grows t.score cfg.overdue_weight,
    fl.add_grows t.score cfg.due_soon_weight,
    fl.le_trans (fl.hundredths 0) t.score (fl.add t.score cfg.overdue_weight),
    fl.le_trans (fl.hundredths 0) t.score (fl.add t.score cfg.due_soon_weight),
    sane.overdue,
    sane.due_soon,
  )

  -- As time passes a due date weighs no less.
  due_mono :
      (due : Option Time) (now later : Time) (t : Tally F)
      → now ≤ later
      → IsNonneg t.score
      → fl.le (due_factor cfg due now t).score (due_factor cfg due later t).score ≡ true
  unfolding due_factor
  due_mono none now later t h n = le_refl_nonneg t.score n
  due_mono (some due) now later t h n = ground (
    arith,
    after_mono due now later h,
    window_mono due now later cfg.due_soon_window h,
    fl.add_grows t.score cfg.overdue_weight,
    fl.add_grows t.score cfg.due_soon_weight,
    fl.add_mono t.score t.score cfg.due_soon_weight cfg.overdue_weight,
    le_refl_nonneg t.score n,
    le_refl_nonneg (fl.add t.score cfg.overdue_weight),
    le_refl_nonneg (fl.add t.score cfg.due_soon_weight),
    fl.le_trans (fl.hundredths 0) t.score (fl.add t.score cfg.overdue_weight),
    fl.le_trans (fl.hundredths 0) t.score (fl.add t.score cfg.due_soon_weight),
    sane.overdue,
    sane.due_soon,
    sane.grades,
  )

  pub confidence-IsNonneg :
      (x : F) (t : Tally F)
      → InUnit x
      → IsNonneg t.score
      → IsNonneg (confidence_factor cfg x t).score
  unfolding confidence_factor
  confidence-IsNonneg x t u n = ground (
    arith,
    fl.mul_unit x cfg.confidence_weight,
    sane.confidence,
    fl.add_grows t.score (fl.mul x cfg.confidence_weight),
    fl.le_trans (fl.hundredths 0) t.score (fl.add t.score (fl.mul x cfg.confidence_weight)),
  )

  confidence_mono :
      (x : F) (s t : Tally F)
      → InUnit x
      → IsNonneg s.score
      → fl.le s.score t.score ≡ true
      → fl.le (confidence_factor cfg x s).score (confidence_factor cfg x t).score ≡ true
  unfolding confidence_factor
  confidence_mono x s t u n h = ground (
    arith,
    fl.mul_unit x cfg.confidence_weight,
    sane.confidence,
    le_refl_nonneg (fl.mul x cfg.confidence_weight),
    fl.add_mono s.score t.score (fl.mul x cfg.confidence_weight) (fl.mul x cfg.confidence_weight),
  )

  pub signal-IsNonneg :
      (signals : List (ChronosSignal F)) (t : Tally F)
      → IsNonneg t.score
      → IsNonneg (signal_factor cfg signals t).score
  unfolding signal_factor
  signal-IsNonneg [] t n = n
  signal-IsNonneg (g ∷ signals) t n = ground (
    arith,
    sane.signal,
    fl.add_grows t.score cfg.signal_weight,
    fl.le_trans (fl.hundredths 0) t.score (fl.add t.score cfg.signal_weight),
  )

  signal_mono :
      (signals : List (ChronosSignal F)) (s t : Tally F)
      → IsNonneg s.score
      → fl.le s.score t.score ≡ true
      → fl.le (signal_factor cfg signals s).score (signal_factor cfg signals t).score ≡ true
  unfolding signal_factor
  signal_mono [] s t n h = h
  signal_mono (g ∷ signals) s t n h = ground (
    arith,
    sane.signal,
    le_refl_nonneg cfg.signal_weight,
    fl.add_mono s.score t.score cfg.signal_weight cfg.signal_weight,
  )

  module _ (c : Commitment F) (unit : InUnit c.confidence) (signals : List (ChronosSignal F)) where
    start : Tally F
    start = record { score = fl.hundredths 0; factors = [] }

    start-IsNonneg : IsNonneg start.score
    unfolding start
    start-IsNonneg = hundredths_le fl 0 0 (omega arith) (omega arith)

    tally-IsNonneg : (now : Time) → IsNonneg (tally cfg c signals now).score
    unfolding tally start
    tally-IsNonneg now =
        signal-IsNonneg signals _
          (confidence-IsNonneg c.confidence _ unit (due-IsNonneg c.due_at now start start-IsNonneg))

    -- With weights between 0 and 1, an overdue commitment weighing at least one that is due soon, and a
    -- confidence between 0 and 1, the score is a number between 0 and 1.
    pub score-InUnit :
        (memories : List MemoryRef) (now : Time)
        → InUnit (evaluate_commitment cfg c signals memories now).score
    unfolding evaluate_commitment
    score-InUnit memories now = clamp-InUnit (tally cfg c signals now).score (tally-IsNonneg now)

    -- With weights between 0 and 1, an overdue commitment weighing at least one that is due soon, and a
    -- confidence between 0 and 1, the score of a commitment does not fall as time passes.
    pub score_mono :
        (memories : List MemoryRef) (now later : Time)
        → now ≤ later
        → fl.le
            (evaluate_commitment cfg c signals memories now).score
            (evaluate_commitment cfg c signals memories later).score
          ≡ true
    unfolding evaluate_commitment tally start
    score_mono memories now later h =
        clamp_mono (tally cfg c signals now).score (tally cfg c signals later).score
          (tally-IsNonneg now)
          (signal_mono signals _ _
            (confidence-IsNonneg c.confidence _ unit
              (due-IsNonneg c.due_at now start start-IsNonneg))
            (confidence_mono c.confidence _ _ unit (due-IsNonneg c.due_at now start start-IsNonneg)
              (due_mono c.due_at now later start h start-IsNonneg)))
