-- ===== src/Pipeline/Evaluate/Counts.antt =====
-- What `EvaluateResult` of internal/pipeline/evaluate.go counts, whatever the services answer.
use nous.Prelude.{
  ℕ, suc, ◌+◌, ◌≤◌, ◌≡◌, inl, inr, Option, none, some, List, [], ◌∷◌, arith, length, length-append,
  Option-cases, ap,
}
use nous.Prelude.Time.{Time, Duration}
use nous.Prelude.Float.{Float64}
use nous.Domain.Errors.{Error, Result, ok, err}
use nous.Domain.Types.{ChronosSignal}
use nous.Domain.Commitment.{Commitment}
use nous.Domain.Decision.{Decision}
use nous.Domain.Intervention.{Intervention}
use nous.Risk.Types.{RiskAssessment}
use nous.Risk.Engine
use nous.Intervene.Engine as Policy
use nous.Pipeline.Services.{Services}
use nous.Pipeline.Evaluate.{
  EvaluateOptions, EvaluateResult, saved_intervention, intervene_on, intervene, noted, after_update,
  evaluate_one, evaluate_all, empty_result, evaluate_found, evaluate,
}
use nous.Pipeline.Evidence.{record_decision}

-- One commitment adds at most one intervention, and nothing else.
pub record OneMore (res res' : EvaluateResult) : Type 0 where
  pub evaluated : res'.evaluated ≡ res.evaluated
  pub updated : res'.updated ≡ res.updated
  pub decisions : res'.decisions ≡ res.decisions
  pub interventions : length res'.interventions ≤ length res.interventions + 1

-- What has been counted after `n` commitments.
pub record IsCounted (n total : ℕ) (res : EvaluateResult) : Type 0 where
  pub evaluated : res.evaluated ≡ total
  pub updated : res.updated ≤ n
  pub decisions : length res.decisions ≤ res.updated
  pub interventions : length res.interventions ≤ res.updated

module _ {F W : Type 0} ⦃fl : Float64 F⦄ (svc : Services F W) (risk : Engine.Config F)
    (policy : Policy.Config F) where
  saved-OneMore :
      (r : W × Option Error) (c : Commitment F) (iv : Intervention) (res : EvaluateResult)
      → OneMore res (saved_intervention svc risk policy r c iv res).1
  unfolding saved_intervention
  saved-OneMore (w, some e) c iv res = ground arith
  saved-OneMore (w, none) c iv res = ground (arith, length-append res.interventions (iv.id ∷ []))

  on-OneMore :
      (r : Result (Option Intervention)) (w w' : W) (c : Commitment F) (res : EvaluateResult)
      → OneMore res (intervene_on svc risk policy r w w' c res).1
  unfolding intervene_on
  on-OneMore (err e) w w' c res = ground arith
  on-OneMore (ok none) w w' c res = ground arith
  on-OneMore (ok (some iv)) w w' c res = saved-OneMore (svc.save_intervention w' iv) c iv res

  pub intervene-OneMore :
      (w : W) (c : Commitment F) (a : RiskAssessment F) (now : Time) (res : EvaluateResult)
      → OneMore res (intervene svc risk policy w c a now res).1
  unfolding intervene
  intervene-OneMore w c a now res = on-OneMore _ w _ c res

  noted-IsCounted :
      (n total : ℕ) (d : Result (Decision F)) (res : EvaluateResult)
      → IsCounted n total res
      → IsCounted (suc n) total (noted svc risk policy d (record res { updated = suc res.updated }))
        × (length res.interventions + 1
            ≤ (noted svc risk policy d (record res { updated = suc res.updated })).updated)
        × (length (noted svc risk policy d (record res { updated = suc res.updated })).interventions
            ≡ length res.interventions)
  unfolding noted
  noted-IsCounted n total (err e) res h = ground arith
  noted-IsCounted n total (ok d) res h = ground (arith, length-append res.decisions (d.id ∷ []))

  after_update-IsCounted :
      (n total : ℕ) (r : W × Option Error) (c : Commitment F) (a : RiskAssessment F)
      (signals : List (ChronosSignal F)) (now : Time) (res : EvaluateResult)
      → IsCounted n total res
      → IsCounted (suc n) total (after_update svc risk policy r c a signals now res).1
  unfolding after_update
  after_update-IsCounted n total (w, some e) c a signals now res h = ground arith
  after_update-IsCounted n total (w, none) c a signals now res h =
      let (w', d) = record_decision svc risk w c a signals now in
      let res' = noted svc risk policy d (record res { updated = suc res.updated }) in
      let more = intervene-OneMore w' c a now res' in
      let counted = noted-IsCounted n total d res h in
      record {
        evaluated = omega (arith, more.evaluated, counted.0.evaluated);
        updated = omega (arith, more.updated, counted.0.updated);
        decisions = omega (arith, more.updated, ap length more.decisions, counted.0.decisions);
        interventions = omega (arith, more.updated, more.interventions, counted.1, counted.2);
      }

  one-IsCounted :
      (n total : ℕ) (w : W) (c : Commitment F) (lookback : Duration) (now : Time)
      (res : EvaluateResult)
      → IsCounted n total res
      → IsCounted (suc n) total (evaluate_one svc risk policy w c lookback now res).1
  unfolding evaluate_one
  one-IsCounted n total w c lookback now res h = after_update-IsCounted n total _ c _ _ now res h

  weaken :
      (n m total : ℕ) (res : EvaluateResult) → n ≤ m → IsCounted n total res → IsCounted m total res
  weaken n m total res l h = ground arith

  all-IsCounted :
      (n : ℕ) (w : W) (cs : List (Commitment F)) (lookback : Duration) (now : Time)
      (res : EvaluateResult) (total : ℕ)
      → n + length cs ≡ total
      → IsCounted n total res
      → IsCounted total total (evaluate_all svc risk policy w cs lookback now res).1
  unfolding evaluate_all
  all-IsCounted n w [] lookback now res total e h = weaken n total total res (omega arith) h
  all-IsCounted n w (c ∷ cs) lookback now res total e h = elim (Option-cases (svc.cancelled w)) [
    | inl go ↦ rw go (
        all-IsCounted (suc n) _ cs lookback now _ total (omega arith)
          (one-IsCounted n total w c lookback now res h))
    | inr (x, stop) ↦ rw stop (weaken n total total res (omega arith) h)
  ]

  found-IsCounted :
      (w : W) (r : Result (List (Commitment F))) (lookback : Duration) (now : Time)
      → (total : ℕ) × IsCounted total total (evaluate_found svc risk policy w r lookback now).1
  unfolding evaluate_found
  found-IsCounted w (err e) lookback now = (0, ground arith)
  found-IsCounted w (ok cs) lookback now = (
    length cs,
    all-IsCounted 0 w cs lookback now (empty_result (length cs)) (length cs) (omega arith)
        (ground arith),
  )

  -- Whatever the services answer, no more commitments are updated than were found, and each updated one
  -- adds at most one decision and at most one intervention.
  pub result_counts :
      (w : W) (opts : EvaluateOptions) (now : Time)
      → let res = (evaluate svc risk policy w opts now).1 in
        (res.updated ≤ res.evaluated)
        × (length res.decisions ≤ res.updated)
        × (length res.interventions ≤ res.updated)
  unfolding evaluate
  result_counts w opts now =
      let (total, h) =
        found-IsCounted _ (svc.find_active (svc.inc_evaluations_run w) opts.limit)
          opts.signal_lookback now in
      (omega (arith, h.updated, h.evaluated), h.decisions, h.interventions)
