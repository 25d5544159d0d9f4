-- ===== src/Risk/Engine/Factors.antt =====
-- The factors that internal/risk/engine.go reports with a score.
use nous.Prelude.{
  ◌≤◌, ◌≡◌, refl, Bool, true, false, ◌||◌, ◌&&◌, not, Option, none, some, String, List, [], ◌∷◌,
  arith, str_eq, length,
}
use nous.Prelude.Int.{leb_ℤ}
use nous.Prelude.Time.{Time, after, sub}
use nous.Prelude.Float.{Float64}
use nous.Domain.Types.{ChronosSignal, MemoryRef}
use nous.Domain.Commitment.{Commitment}
use nous.Risk.Types.{RiskFactor}
use nous.Risk.Engine.{Config, clamp, evaluate_commitment}

abbrev pub is_overdue : Option Time → Time → Bool
is_overdue none now = false
is_overdue (some due) now = after now due

abbrev pub is_due_soon : {F : Type 0} → Config F → Option Time → Time → Bool
is_due_soon cfg none now = false
is_due_soon cfg (some due) now = leb_ℤ (sub due now) cfg.due_soon_window

abbrev pub is_empty {ℓ} : {A : Type ℓ} → List A → Bool
is_empty [] = true
is_empty (x ∷ xs) = false

module _ {F : Type 0} ⦃fl : Float64 F⦄ where
  -- The weights of the factors, added from the left.
  abbrev pub sum_weights : F → List (RiskFactor F) → F
  sum_weights acc [] = acc
  sum_weights acc (f ∷ fs) = sum_weights (fl.add acc f.weight) fs

  -- The score is the clamped sum of the weights that the assessment lists.
  pub score_explained :
      (cfg : Config F) (c : Commitment F) (signals : List (ChronosSignal F))
      (memories : List MemoryRef) (now : Time)
      → (evaluate_commitment cfg c signals memories now).score
        ≡ clamp
            (sum_weights (fl.hundredths 0) (evaluate_commitment cfg c signals memories now).factors)
  unfolding evaluate_commitment
  score_explained cfg c [] memories now = ground arith
  score_explained cfg c (s ∷ signals) memories now = ground arith

  -- Whether a factor of this type is listed.
  abbrev pub lists_type : String → List (RiskFactor F) → Bool
  lists_type type [] = false
  lists_type type (f ∷ fs) = str_eq f.type type || lists_type type fs

  -- Each type is listed exactly under its condition, so a commitment is never both overdue and due
  -- soon, and at most three factors are listed.
  pub factors_exact :
      (cfg : Config F) (c : Commitment F) (signals : List (ChronosSignal F))
      (memories : List MemoryRef) (now : Time)
      → let fs = (evaluate_commitment cfg c signals memories now).factors in
        (lists_type "overdue" fs ≡ is_overdue c.due_at now)
        × (lists_type "due_soon" fs
            ≡ (not (is_overdue c.due_at now) && is_due_soon cfg c.due_at now))
        × (lists_type "confidence" fs ≡ fl.lt (fl.hundredths 0) c.confidence)
        × (lists_type "chronos_signal" fs ≡ not (is_empty signals))
        × (length fs ≤ 3)
  unfolding evaluate_commitment
  factors_exact cfg c [] memories now = ground arith
  factors_exact cfg c (s ∷ signals) memories now = ground arith

  -- Signals beyond the first do not raise the score: any two non-empty lists give the same result.
  pub signals_capped :
      (cfg : Config F) (c : Commitment F) (s s' : ChronosSignal F)
      (more more' : List (ChronosSignal F)) (memories memories' : List MemoryRef) (now : Time)
      → evaluate_commitment cfg c (s ∷ more) memories now
        ≡ evaluate_commitment cfg c (s' ∷ more') memories' now
  unfolding evaluate_commitment
  signals_capped cfg c s s' more more' memories memories' now = refl
