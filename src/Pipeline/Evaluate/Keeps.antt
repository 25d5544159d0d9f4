-- ===== src/Pipeline/Evaluate/Keeps.antt =====
-- A pass of internal/pipeline/evaluate.go over services that meet their contract: it goes on only.
use nous.Prelude.{ℕ, Option, none, some, List, [], ◌∷◌, length, Option-cases, Bool-cases, inl, inr}
use nous.Prelude.Time.{Time, Duration}
use nous.Prelude.Float.{Float64}
use nous.Domain.Errors.{Uuid, Error, Result, ok, err}
use nous.Domain.Types.{ChronosSignal}
use nous.Domain.Commitment.{Commitment}
use nous.Domain.Decision.{Decision}
use nous.Domain.Intervention.{Intervention}
use nous.Risk.Types.{RiskAssessment}
use nous.Risk.Engine
use nous.Risk.Engine.{evaluate_commitment}
use nous.Risk.Engine.Bounds.{score_in_range}
use nous.Intervene.Engine as Policy
use nous.Intervene.Engine.{maybe_intervene}
use nous.Pipeline.Services.{Services}
use nous.Pipeline.Evaluate.{
  EvaluateOptions, EvaluateResult, handed_off, saved_intervention, intervene_on, intervene,
  after_update, evaluate_one, evaluate_all, evaluate_found, evaluate, is_automation,
}
use nous.Pipeline.Evidence.{
  fetch_signals, fetch_memories, mirror_decision, record_decision, save_built, after_save,
  praxis_dry_run,
}
use nous.Pipeline.Evaluate.Contract.{Onward, Aside, Contract, stay, then_on}

module _ {F W : Type 0} ⦃fl : Float64 F⦄ (svc : Services F W) (risk : Engine.Config F)
    (policy : Policy.Config F) (P : W → Type 0) (Stored : W → Uuid → Type 0)
    (k : Aside svc P Stored) where
  signals_go :
      (w : W) (c : Commitment F) (lookback : Duration) (now : Time)
      → Onward P Stored w (fetch_signals svc w c lookback now).0
  unfolding fetch_signals
  signals_go w c lookback now = elim (Option-cases svc.chronos) [
    | inl e ↦ rw e (stay w)
    | inr (f, e) ↦ rw e (k.signals_on f e w _)
  ]

  memories_go : (w : W) (c : Commitment F) → Onward P Stored w (fetch_memories svc w c).0
  unfolding fetch_memories
  memories_go w c = elim (Option-cases svc.mnemos) [
    | inl e ↦ rw e (stay w)
    | inr (m, e) ↦ rw e (k.recall_on m e w _)
  ]

  pub mirror_go :
      (w : W) (c : Commitment F) (d : Decision F) (a : RiskAssessment F) (n : ℕ) (now : Time)
      → Onward P Stored w (mirror_decision svc w c d a n now)
  unfolding mirror_decision
  mirror_go w c d a n now = elim (Option-cases svc.mnemos) [
    | inl e ↦ rw e (stay w)
    | inr (m, e) ↦ rw e (k.append_on m e w _)
  ]

  dry_run_go :
      (w : W) (c : Commitment F) (iv : Intervention) → Onward P Stored w (praxis_dry_run svc w c iv)
  unfolding praxis_dry_run
  dry_run_go w c iv = elim (Option-cases svc.praxis) [
    | inl e ↦ rw e (stay w)
    | inr (f, e) ↦ rw e (k.dry_run_on f e w _)
  ]

  pub after_save_go :
      (r : W × Option Error) (c : Commitment F) (d : Decision F) (a : RiskAssessment F) (n : ℕ)
      (now : Time)
      → Onward P Stored r.0 (after_save svc r c d a n now).0
  unfolding after_save
  after_save_go (w, some e) c d a n now = stay w
  after_save_go (w, none) c d a n now = mirror_go w c d a n now

  saved_go :
      (r : W × Option Error) (c : Commitment F) (iv : Intervention) (res : EvaluateResult)
      → Onward P Stored r.0 (saved_intervention svc risk policy r c iv res).0
  unfolding saved_intervention handed_off
  saved_go (w, some e) c iv res = stay w
  saved_go (w, none) c iv res = elim (Bool-cases (is_automation svc risk policy iv.type)) [
    | inl e ↦
        rw e (then_on w _ _ (k.created_on w) (dry_run_go (svc.inc_interventions_created w) c iv))
    | inr e ↦ rw e (k.created_on w)
  ]

  on_go :
      (r : Result (Option Intervention)) (w w' : W) (c : Commitment F) (res : EvaluateResult)
      → Onward P Stored w w'
      → Onward P Stored w (intervene_on svc risk policy r w w' c res).0
  unfolding intervene_on
  on_go (err e) w w' c res h = h
  on_go (ok none) w w' c res h = stay w
  on_go (ok (some iv)) w w' c res h =
      then_on w w' _ h
        (then_on w' _ _ (k.intervention_on w' iv) (saved_go (svc.save_intervention w' iv) c iv res))

  pub intervene_go :
      (w : W) (c : Commitment F) (a : RiskAssessment F) (now : Time) (res : EvaluateResult)
      → Onward P Stored w (intervene svc risk policy w c a now res).0
  unfolding intervene
  intervene_go w c a now res = on_go _ w (svc.new_uuid w).1 c res (k.uuid_on w)

  -- The world that the new score is written to, and the assessment.
  pub before_update_go :
      (w : W) (c : Commitment F) (lookback : Duration) (now : Time) (x : F)
      → let w1 = (fetch_signals svc w c lookback now).0 in
        Onward P Stored w (svc.observe_risk_score (fetch_memories svc w1 c).0 x)
  before_update_go w c lookback now x =
      let w1 = (fetch_signals svc w c lookback now).0 in
      then_on w w1 _ (signals_go w c lookback now)
        (then_on w1 _ _ (memories_go w1 c) (k.score_on (fetch_memories svc w1 c).0 x))

module _ {F W : Type 0} ⦃fl : Float64 F⦄ (svc : Services F W) (risk : Engine.Config F)
    (policy : Policy.Config F) (P : W → Type 0) (Stored : W → Uuid → Type 0)
    (k : Contract svc P Stored) where
  save_built_go :
      (w : W) (r : Result (Decision F)) (c : Commitment F) (a : RiskAssessment F) (n : ℕ)
      (now : Time)
      → Onward P Stored w (save_built svc risk w r c a n now).0
  unfolding save_built
  save_built_go w (err e) c a n now = stay w
  save_built_go w (ok d) c a n now =
      then_on w _ _ (k.decision_on w _)
        (after_save_go svc risk policy P Stored k.aside (svc.save_decision w _) c _ a n now)

  pub decision_go :
      (w : W) (c : Commitment F) (a : RiskAssessment F) (signals : List (ChronosSignal F))
      (now : Time)
      → Onward P Stored w (record_decision svc risk w c a signals now).0
  unfolding record_decision
  decision_go w c a signals now =
      then_on w (svc.new_uuid w).1 _ (k.aside.uuid_on w)
        (save_built_go (svc.new_uuid w).1 _ c a (length signals) now)

  after_update_go :
      (r : W × Option Error) (c : Commitment F) (a : RiskAssessment F)
      (signals : List (ChronosSignal F)) (now : Time) (res : EvaluateResult)
      → Onward P Stored r.0 (after_update svc risk policy r c a signals now res).0
  unfolding after_update
  after_update_go (w, some e) c a signals now res = stay w
  after_update_go (w, none) c a signals now res =
      then_on w _ _ (decision_go w c a signals now)
        (intervene_go svc risk policy P Stored k.aside _ c a now _)

  pub one_go :
      (w : W) (c : Commitment F) (lookback : Duration) (now : Time) (res : EvaluateResult)
      → Onward P Stored w (evaluate_one svc risk policy w c lookback now res).0
  unfolding evaluate_one
  one_go w c lookback now res =
      then_on w _ _ (before_update_go svc risk policy P Stored k.aside w c lookback now _) (
        then_on _ _ _ (k.update_on _ c.id _ now (score_in_range risk c _ _ now))
          (after_update_go _ c _ _ now res))

  all_go :
      (cs : List (Commitment F)) (w : W) (lookback : Duration) (now : Time) (res : EvaluateResult)
      → Onward P Stored w (evaluate_all svc risk policy w cs lookback now res).0
  unfolding evaluate_all
  all_go [] w lookback now res = stay w
  all_go (c ∷ cs) w lookback now res = elim (Option-cases (svc.cancelled w)) [
    | inl go ↦ rw go (
        then_on w _ _ (one_go w c lookback now res) (
          all_go cs (evaluate_one svc risk policy w c lookback now res).0 lookback now
            (evaluate_one svc risk policy w c lookback now res).1))
    | inr (x, stop) ↦ rw stop (stay w)
  ]

  found_go :
      (w : W) (r : Result (List (Commitment F))) (lookback : Duration) (now : Time)
      → Onward P Stored w (evaluate_found svc risk policy w r lookback now).0
  unfolding evaluate_found
  found_go w (err e) lookback now = stay w
  found_go w (ok cs) lookback now = all_go cs w lookback now _

  -- A pass keeps every invariant that the repositories and the clients keep, the new scores being in
  -- range, and loses no stored commitment.
  pub evaluate-Onward :
      (w : W) (opts : EvaluateOptions) (now : Time)
      → Onward P Stored w (evaluate svc risk policy w opts now).0
  unfolding evaluate
  evaluate-Onward w opts now =
      then_on w _ _ (k.aside.runs_on w)
        (found_go (svc.inc_evaluations_run w) _ opts.signal_lookback now)
