-- ===== src/Risk/Engine/Defaults.antt =====
-- The score of internal/risk/engine.go under `DefaultConfig`, bounded through the rounding of sums.
use nous.Prelude.{ℕ, ◌+◌, ◌≤◌, ◌≡◌, true, false, Option, none, some, List, [], ◌∷◌, arith, subst}
use nous.Prelude.Time.{Time}
use nous.Prelude.Float.{Float64, InUnit, hundredths_le, le→not_lt, lt→le}
use nous.Domain.Types.{ChronosSignal, MemoryRef}
use nous.Domain.Commitment.{Commitment}
use nous.Risk.Engine.{
  Tally, default_config, due_factor, confidence_factor, signal_factor, clamp, tally,
  evaluate_commitment,
}
use nous.Risk.Engine.Bounds.{IsSane, IsNonneg, clamp_mono, clamp_nonneg}
use nous.Risk.Engine.Monotone.{due-IsNonneg, confidence-IsNonneg, signal-IsNonneg}
use nous.Risk.Engine.Factors.{is_overdue, is_due_soon}

module _ {F : Type 0} (fl : Float64 F) where
  pub hundredths-InUnit : (n : ℕ) → n ≤ 100 → InUnit ⦃fl = fl⦄ (fl.hundredths n)
  hundredths-InUnit n h =
      (hundredths_le fl 0 n (omega arith) (omega arith), hundredths_le fl n 100 h (omega arith))

  pub default-IsSane : IsSane ⦃fl = fl⦄ (default_config ⦃fl = fl⦄)
  default-IsSane = record {
    overdue = hundredths-InUnit 60 (omega arith);
    due_soon = hundredths-InUnit 30 (omega arith);
    confidence = hundredths-InUnit 20 (omega arith);
    signal = hundredths-InUnit 15 (omega arith);
    grades = hundredths_le fl 30 60 (omega arith) (omega arith);
  }

module _ {F : Type 0} ⦃fl : Float64 F⦄ where
  -- A sum of numbers below m/100 and n/100 is below (m + n + 1)/100.
  add_below :
      (a b : F) (m n : ℕ)
      → m + n ≤ 900
      → IsNonneg a
      → IsNonneg b
      → fl.le a (fl.hundredths m) ≡ true
      → fl.le b (fl.hundredths n) ≡ true
      → fl.le (fl.add a b) (fl.hundredths (m + n + 1)) ≡ true
  add_below a b m n k na nb h l =
      fl.le_trans (fl.add a b) (fl.add (fl.hundredths m) (fl.hundredths n))
        (fl.hundredths (m + n + 1)) (fl.add_mono a (fl.hundredths m) b (fl.hundredths n) na nb h l)
        (lt→le (fl.add (fl.hundredths m) (fl.hundredths n)) (fl.hundredths (m + n + 1))
          (fl.hundredths_add m n k))

  loosen :
      (a : F) (m n : ℕ)
      → m ≤ n
      → n ≤ 1000
      → fl.le a (fl.hundredths m) ≡ true
      → fl.le a (fl.hundredths n) ≡ true
  loosen a m n h k l =
      fl.le_trans a (fl.hundredths m) (fl.hundredths n) l (hundredths_le fl m n h k)

  confidence_below :
      (x : F) (t : Tally F) (m : ℕ)
      → m ≤ 800
      → InUnit x
      → IsNonneg t.score
      → fl.le t.score (fl.hundredths m) ≡ true
      → fl.le (confidence_factor default_config x t).score (fl.hundredths (m + 20 + 1)) ≡ true
  unfolding confidence_factor
  confidence_below x t m k u n h = ground (
    arith,
    fl.mul_unit x (fl.hundredths 20),
    hundredths-InUnit fl 20,
    add_below t.score (fl.mul x (fl.hundredths 20)) m 20,
    loosen t.score m (m + 20 + 1),
  )

  signal_below :
      (signals : List (ChronosSignal F)) (t : Tally F) (m : ℕ)
      → m ≤ 800
      → IsNonneg t.score
      → fl.le t.score (fl.hundredths m) ≡ true
      → fl.le (signal_factor default_config signals t).score (fl.hundredths (m + 15 + 1)) ≡ true
  unfolding signal_factor
  signal_below [] t m k n h = loosen t.score m (m + 15 + 1) (omega arith) (omega arith) h
  signal_below (g ∷ signals) t m k n h = ground (
    arith,
    hundredths-InUnit fl 15,
    hundredths_le fl 15 15,
    add_below t.score (fl.hundredths 15) m 15,
  )

  confidence_above :
      (x a : F) (t : Tally F)
      → InUnit x
      → IsNonneg t.score
      → fl.le a t.score ≡ true
      → fl.le a (confidence_factor default_config x t).score ≡ true
  unfolding confidence_factor
  confidence_above x a t u n h = ground (
    arith,
    fl.mul_unit x (fl.hundredths 20),
    hundredths-InUnit fl 20,
    fl.add_grows t.score (fl.mul x (fl.hundredths 20)),
    fl.le_trans a t.score (fl.add t.score (fl.mul x (fl.hundredths 20))),
  )

  signal_above :
      (signals : List (ChronosSignal F)) (a : F) (t : Tally F)
      → IsNonneg t.score
      → fl.le a t.score ≡ true
      → fl.le a (signal_factor default_config signals t).score ≡ true
  unfolding signal_factor
  signal_above [] a t n h = h
  signal_above (g ∷ signals) a t n h = ground (
    arith,
    hundredths-InUnit fl 15,
    fl.add_grows t.score (fl.hundredths 15),
    fl.le_trans a t.score (fl.add t.score (fl.hundredths 15)),
  )

  clamp-hundredths : (n : ℕ) → n ≤ 100 → clamp (fl.hundredths n) ≡ fl.hundredths n
  clamp-hundredths n h =
      rw (clamp_nonneg (fl.hundredths n) (hundredths-InUnit fl n h).0)
        (rw (le→not_lt (fl.hundredths n) (fl.hundredths 100) (hundredths-InUnit fl n h).1))

module _ {F : Type 0} (fl : Float64 F) where
  abbrev start : Tally F
  start = record { score = fl.hundredths 0; factors = [] }

  due_above :
      (due : Option Time) (now : Time)
      → is_overdue due now ≡ true
      → fl.le
          (fl.hundredths 60)
          (due_factor ⦃fl = fl⦄ (default_config ⦃fl = fl⦄) due now start).score
        ≡ true
  unfolding due_factor
  due_above none now h = cc
  due_above (some due) now h = ground (
    arith,
    fl.add_grows (fl.hundredths 0) (fl.hundredths 60),
    hundredths_le fl 0 0,
    hundredths_le fl 0 60,
  )

  due_early :
      (due : Option Time) (now : Time)
      → is_overdue due now ≡ false
      → fl.le
          (due_factor ⦃fl = fl⦄ (default_config ⦃fl = fl⦄) due now start).score
          (fl.hundredths 31)
        ≡ true
  unfolding due_factor
  due_early none now h = hundredths_le fl 0 31 (omega arith) (omega arith)
  due_early (some due) now h = ground (
    arith,
    add_below ⦃fl = fl⦄ (fl.hundredths 0) (fl.hundredths 30) 0 30,
    hundredths_le fl 0 0,
    hundredths_le fl 0 30,
    hundredths_le fl 30 30,
    hundredths_le fl 0 31,
  )

  due_calm :
      (due : Option Time) (now : Time)
      → is_overdue due now ≡ false
      → is_due_soon (default_config ⦃fl = fl⦄) due now ≡ false
      → fl.le
          (due_factor ⦃fl = fl⦄ (default_config ⦃fl = fl⦄) due now start).score
          (fl.hundredths 0)
        ≡ true
  unfolding due_factor
  due_calm none now h k = hundredths_le fl 0 0 (omega arith) (omega arith)
  due_calm (some due) now h k = ground (arith, hundredths_le fl 0 0)

module _ {F : Type 0} ⦃fl : Float64 F⦄ where
  module _ (c : Commitment F) (unit : InUnit c.confidence) (signals : List (ChronosSignal F))
      (memories : List MemoryRef) (now : Time) where
    abbrev due_tally : Tally F
    due_tally = due_factor default_config c.due_at now (start fl)

    due_tally-IsNonneg : IsNonneg due_tally.score
    due_tally-IsNonneg =
        due-IsNonneg default_config (default-IsSane fl) c.due_at now (start fl)
          (hundredths_le fl 0 0 (omega arith) (omega arith))

    confident-IsNonneg : IsNonneg (confidence_factor default_config c.confidence due_tally).score
    confident-IsNonneg =
        confidence-IsNonneg default_config (default-IsSane fl) c.confidence due_tally unit
          due_tally-IsNonneg

    tally-IsNonneg : IsNonneg (tally default_config c signals now).score
    unfolding tally
    tally-IsNonneg = signal-IsNonneg default_config (default-IsSane fl) signals _ confident-IsNonneg

    tally_below :
        (m : ℕ)
        → m ≤ 60
        → fl.le due_tally.score (fl.hundredths m) ≡ true
        → fl.le (tally default_config c signals now).score (fl.hundredths (m + 20 + 1 + 15 + 1))
          ≡ true
    unfolding tally
    tally_below m k h =
        signal_below signals _ (m + 20 + 1) (omega arith) confident-IsNonneg
          (confidence_below c.confidence due_tally m (omega arith) unit due_tally-IsNonneg h)

    -- What the due date adds bounds the whole score.
    score_below :
        (m : ℕ)
        → m ≤ 60
        → fl.le due_tally.score (fl.hundredths m) ≡ true
        → fl.le
            (evaluate_commitment default_config c signals memories now).score
            (fl.hundredths (m + 20 + 1 + 15 + 1))
          ≡ true
    unfolding evaluate_commitment
    score_below m k h =
        subst (λ x. fl.le (clamp (tally default_config c signals now).score) x ≡ true)
          (clamp-hundredths (m + 20 + 1 + 15 + 1) (omega arith))
          (clamp_mono (tally default_config c signals now).score _ tally-IsNonneg
            (tally_below m k h))

    -- An overdue commitment scores at least 0.6.
    pub overdue_score :
        is_overdue c.due_at now ≡ true
        → fl.le (fl.hundredths 60) (evaluate_commitment default_config c signals memories now).score
          ≡ true
    unfolding evaluate_commitment tally
    overdue_score h =
        subst (λ x. fl.le x (clamp (tally default_config c signals now).score) ≡ true)
          (clamp-hundredths 60 (omega arith))
          (clamp_mono _ (tally default_config c signals now).score
            (hundredths-InUnit fl 60 (omega arith)).0
            (signal_above signals _ _ confident-IsNonneg (
              confidence_above c.confidence _ due_tally unit due_tally-IsNonneg
                (due_above fl c.due_at now h))))

    -- A commitment that is not overdue scores at most 0.68.
    pub early_score :
        is_overdue c.due_at now ≡ false
        → fl.le (evaluate_commitment default_config c signals memories now).score (fl.hundredths 68)
          ≡ true
    early_score h = score_below 31 (omega arith) (due_early fl c.due_at now h)

    -- A commitment that is neither overdue nor due soon scores at most 0.37.
    pub calm_score :
        is_overdue c.due_at now ≡ false
        → is_due_soon (default_config ⦃fl = fl⦄) c.due_at now ≡ false
        → fl.le (evaluate_commitment default_config c signals memories now).score (fl.hundredths 37)
          ≡ true
    calm_score h k = score_below 0 (omega arith) (due_calm fl c.due_at now h k)
