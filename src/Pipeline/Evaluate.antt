-- ===== src/Pipeline/Evaluate.antt =====
-- internal/pipeline/evaluate.go: one pass over the active commitments.
pub mod Counts
pub mod Contract
pub mod Keeps
pub mod Full
use nous.Prelude.{
  ℕ, suc, ◌+◌, ◌*◌, Bool, true, false, Option, none, some, String, List, [], ◌∷◌, ◌++◌, ◌==◌,
  length, if◌then◌else◌,
}
use nous.Prelude.Int.{ℤ, pos, negsuc, pos_part, neg_part, sub_ℕ}
use nous.Prelude.Time.{Time, Duration, add, hour}
use nous.Prelude.Float.{Float64}
use nous.Domain.Errors.{Uuid, Error, Result, ok, err}
use nous.Domain.Types.{ChronosSignal, MemoryRef}
use nous.Domain.Commitment.{Commitment}
use nous.Domain.Decision.{Decision, new_decision, text, count, number, risk_factors}
use nous.Domain.Intervention
use nous.Domain.Intervention.{Intervention, InterventionType, automation, ActionRequest}
use nous.Ports.{SignalFilter, RecallQuery, MnemosEvent}
use nous.Risk.Types.{RiskAssessment}
use nous.Risk.Engine
use nous.Risk.Engine.{evaluate_commitment, weights}
use nous.Intervene.Engine as Policy
use nous.Intervene.Engine.{maybe_intervene}
use nous.Pipeline.Evidence.{fetch_signals, fetch_memories, record_decision, praxis_dry_run}
use nous.Pipeline.Services.{Services, Mnemos}

pub record EvaluateOptions : Type 0 where
  pub limit : ℤ
  pub signal_lookback : Duration

pub record EvaluateResult : Type 0 where
  pub evaluated : ℕ
  pub updated : ℕ
  pub interventions : List Uuid
  pub decisions : List Uuid

abbrev pub empty_result : ℕ → EvaluateResult
empty_result n = record { evaluated = n; updated = 0; interventions = []; decisions = [] }

module _ {F W : Type 0} ⦃fl : Float64 F⦄ (svc : Services F W) (risk : Engine.Config F)
    (policy : Policy.Config F) where
  is_automation : InterventionType → Bool
  is_automation automation = true
  is_automation t = false

  -- The hand-off after a saved intervention.
  handed_off : W → Commitment F → Intervention → EvaluateResult → W × EvaluateResult
  unfolding is_automation
  handed_off w c iv res =
      let w' = svc.inc_interventions_created w in
      (
        if is_automation iv.type then praxis_dry_run svc w' c iv else w',
        record res { interventions = res.interventions ++ iv.id ∷ [] },
      )

  saved_intervention :
      W × Option Error → Commitment F → Intervention → EvaluateResult → W × EvaluateResult
  unfolding handed_off
  saved_intervention (w, some e) c iv res = (w, res)
  saved_intervention (w, none) c iv res = handed_off w c iv res

  -- What `MaybeIntervene` gave, from `w`; `w'` is the world after it drew an identifier.
  intervene_on :
      Result (Option Intervention) → W → W → Commitment F → EvaluateResult → W × EvaluateResult
  unfolding saved_intervention
  intervene_on (err e) w w' c res = (w', res)
  intervene_on (ok none) w w' c res = (w, res)
  intervene_on (ok (some iv)) w w' c res = saved_intervention (svc.save_intervention w' iv) c iv res

  unfoldable pub intervene :
      W → Commitment F → RiskAssessment F → Time → EvaluateResult → W × EvaluateResult
  unfolding intervene_on
  intervene w c a now res =
      let (id, w') = svc.new_uuid w in
      intervene_on (maybe_intervene svc.message policy id c a now) w w' c res

  -- `if err == nil { result.Decisions = append(result.Decisions, dec.ID) }`
  unfoldable pub noted : Result (Decision F) → EvaluateResult → EvaluateResult
  noted (ok dec) res = record res { decisions = res.decisions ++ dec.id ∷ [] }
  noted (err e) res = res

  -- From `UpdateRisk` on; an error there goes on to the next commitment.
  unfoldable pub after_update :
      W × Option Error
      → Commitment F
      → RiskAssessment F
      → List (ChronosSignal F)
      → Time
      → EvaluateResult
      → W × EvaluateResult
  unfolding noted
  after_update (w, some e) c a signals now res = (w, res)
  after_update (w, none) c a signals now res =
      let (w', dec) = record_decision svc risk w c a signals now in
      intervene w' c a now (noted dec (record res { updated = suc res.updated }))

  -- The body of the loop, after the test of the context.
  unfoldable pub evaluate_one :
      W → Commitment F → Duration → Time → EvaluateResult → W × EvaluateResult
  unfolding after_update
  evaluate_one w c lookback now res =
      let (w1, signals) = fetch_signals svc w c lookback now in
      let (w2, memories) = fetch_memories svc w1 c in
      let a = evaluate_commitment risk c signals memories now in
      let w3 = svc.observe_risk_score w2 a.score in
      after_update (svc.update_risk w3 c.id a.score now) c a signals now res

  -- `if err := ctx.Err(); err != nil { return result, err }`
  stop_or :
      Option Error
      → W
      → EvaluateResult
      → W × EvaluateResult × Option Error
      → W × EvaluateResult × Option Error
  stop_or (some e) w res rest = (w, res, some e)
  stop_or none w res rest = rest

  -- The loop. A cancelled context ends it with what was done so far.
  unfoldable pub evaluate_all :
      W → List (Commitment F) → Duration → Time → EvaluateResult → W × EvaluateResult × Option Error
  unfolding stop_or
  evaluate_all w [] lookback now res = (w, res, none)
  evaluate_all w (c ∷ cs) lookback now res =
      let (w', res') = evaluate_one w c lookback now res in
      let rest = evaluate_all w' cs lookback now res' in stop_or (svc.cancelled w) w res rest

  evaluate_found :
      W → Result (List (Commitment F)) → Duration → Time → W × EvaluateResult × Option Error
  evaluate_found w (err e) lookback now = (w, empty_result 0, some e)
  evaluate_found w (ok cs) lookback now = evaluate_all w cs lookback now (empty_result (length cs))

  -- `now` is what the clock shows at the start.
  unfoldable pub evaluate : W → EvaluateOptions → Time → W × EvaluateResult × Option Error
  unfolding evaluate_found
  evaluate w opts now =
      let w' = svc.inc_evaluations_run w in
      evaluate_found w' (svc.find_active w' opts.limit) opts.signal_lookback now
