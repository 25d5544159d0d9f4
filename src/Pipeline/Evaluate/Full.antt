-- ===== src/Pipeline/Evaluate/Full.antt =====
-- A pass of internal/pipeline/evaluate.go over services that meet their contract: it reaches the end.
use nous.Prelude.{
  ℕ, suc, ◌+◌, ◌≡◌, ◌≢◌, refl, ap, ◌∙◌, false, Option, none, some, List, [], ◌∷◌, arith, All,
  length, length-append, trim_space,
}
use nous.Prelude.Time.{Time, Duration}
use nous.Prelude.Float.{Float64, outside_unit}
use nous.Domain.Errors.{Uuid, Error, Result, ok, err, IsOk-value}
use nous.Domain.Decision.Validity.{new_decision_accepts, new_decision-validate}
use nous.Domain.Types.{ChronosSignal, MemoryRef}
use nous.Domain.Commitment.{Commitment}
use nous.Domain.Decision.{Decision, new_decision, validate}
use nous.Risk.Types.{RiskAssessment}
use nous.Risk.Engine
use nous.Risk.Engine.{evaluate_commitment}
use nous.Intervene.Engine as Policy
use nous.Intervene.Engine.{maybe_intervene}
use nous.Pipeline.Services.{Services}
use nous.Pipeline.Evaluate.{
  EvaluateOptions, EvaluateResult, noted, after_update, evaluate_one, evaluate_all, empty_result,
  evaluate_found, evaluate,
}
use nous.Pipeline.Evidence.{record_decision, save_built, after_save, filled}
use nous.Pipeline.Evaluate.Contract.{Onward, Contract}
use nous.Pipeline.Evaluate.Keeps.{one_go, before_update_go}
use nous.Pipeline.Evaluate.Counts.{intervene-OneMore}

module _ {F : Type 0} ⦃fl : Float64 F⦄ (risk : Engine.Config F) where
  -- The confidence of an assessment is that of the commitment.
  pub confidence_same :
      (c : Commitment F) (signals : List (ChronosSignal F)) (memories : List MemoryRef) (now : Time)
      → outside_unit c.confidence ≡ false
      → outside_unit (evaluate_commitment risk c signals memories now).confidence ≡ false
  unfolding evaluate_commitment
  confidence_same c signals memories now o = o

-- The texts of the decisions are not blank.
pub speaks :
    (trim_space "commitment.evaluate" ≢ "")
    × (trim_space "Risk evaluated against current signals." ≢ "")
unfolding trim_space
speaks = (λ e. cc e, λ e. cc e)

module _ {F W : Type 0} ⦃fl : Float64 F⦄ (svc : Services F W) (risk : Engine.Config F)
    (policy : Policy.Config F) (P : W → Type 0) (Stored : W → Uuid → Type 0)
    (k : Contract svc P Stored) where
  -- `err == nil`
  abbrev Made : Result (Decision F) → Type 0
  Made r = (d : Decision F) × (r ≡ ok d)

  after_save-Made :
      (r : W × Option Error) (c : Commitment F) (d : Decision F) (a : RiskAssessment F) (n : ℕ)
      (now : Time)
      → r.1 ≡ none
      → Made (after_save svc r c d a n now).1
  unfolding after_save
  after_save-Made (w, some e) c d a n now h = absurd (cc h)
  after_save-Made (w, none) c d a n now h = (d, refl)

  filled_valid :
      (d : Decision F) (c : Commitment F) (a : RiskAssessment F) (n : ℕ)
      → validate d ≡ none
      → validate (filled svc risk d c a n) ≡ none
  unfolding filled validate
  filled_valid d c a n h = h

  save_built-Made :
      (w : W) (r : Result (Decision F)) (c : Commitment F) (a : RiskAssessment F) (n : ℕ)
      (now : Time) (d : Decision F)
      → r ≡ ok d
      → validate d ≡ none
      → Made (save_built svc risk w r c a n now).1
  unfolding save_built
  save_built-Made w (err e) c a n now d h v = absurd (cc h)
  save_built-Made w (ok d') c a n now d h v =
      after_save-Made _ c _ a n now (k.decides w _ (filled_valid d' c a n (ground arith)))

  record_decision-Made :
      (w : W) (c : Commitment F) (a : RiskAssessment F) (signals : List (ChronosSignal F))
      (now : Time)
      → outside_unit a.confidence ≡ false
      → Made (record_decision svc risk w c a signals now).1
  unfolding record_decision
  record_decision-Made w c a signals now o =
      let (d, e) = IsOk-value (new_decision (svc.new_uuid w).0 _ _ a.confidence now) (
        (new_decision_accepts (svc.new_uuid w).0 _ _ a.confidence now).1
          (k.draws w, speaks.0, speaks.1, o)) in
      save_built-Made (svc.new_uuid w).1 _ c a (length signals) now d e
        (new_decision-validate (svc.new_uuid w).0 _ _ a.confidence now e)

  -- One more commitment updated and one more decision.
  record Advanced (res res' : EvaluateResult) : Type 0 where
    evaluated : res'.evaluated ≡ res.evaluated
    updated : res'.updated ≡ res.updated + 1
    decisions : length res'.decisions ≡ length res.decisions + 1

  noted-Advanced :
      (d : Result (Decision F)) (res : EvaluateResult)
      → Made d
      → Advanced res (noted svc risk policy d (record res { updated = suc res.updated }))
  unfolding noted
  noted-Advanced (err e) res h = absurd (cc h.1)
  noted-Advanced (ok d) res h = ground (arith, length-append res.decisions (d.id ∷ []))

  after_update-Advanced :
      (r : W × Option Error) (c : Commitment F) (a : RiskAssessment F)
      (signals : List (ChronosSignal F)) (now : Time) (res : EvaluateResult)
      → r.1 ≡ none
      → outside_unit a.confidence ≡ false
      → Advanced res (after_update svc risk policy r c a signals now res).1
  unfolding after_update
  after_update-Advanced (w, some e) c a signals now res h o = absurd (cc h)
  after_update-Advanced (w, none) c a signals now res h o =
      let (w', d) = record_decision svc risk w c a signals now in
      let res' = noted svc risk policy d (record res { updated = suc res.updated }) in
      let one = noted-Advanced d res (record_decision-Made w c a signals now o) in
      let more = intervene-OneMore svc risk policy w' c a now res' in
      record {
        evaluated = more.evaluated ∙ one.evaluated;
        updated = more.updated ∙ one.updated;
        decisions = ap length more.decisions ∙ one.decisions;
      }

  one-Advanced :
      (w : W) (c : Commitment F) (lookback : Duration) (now : Time) (res : EvaluateResult)
      → Stored w c.id
      → outside_unit c.confidence ≡ false
      → Advanced res (evaluate_one svc risk policy w c lookback now res).1
  unfolding evaluate_one
  one-Advanced w c lookback now res s o =
      after_update-Advanced _ c _ _ now res
        (k.updates _ c.id _ now
          ((before_update_go svc risk policy P Stored k.aside w c lookback now _).stays c.id s))
        (confidence_same risk c _ _ now o)

  -- A commitment that the pass can take on in `w`.
  abbrev IsReady : W → Commitment F → Type 0
  IsReady w c = Stored w c.id × (outside_unit c.confidence ≡ false)

  IsReady-later :
      (w w' : W) (cs : List (Commitment F))
      → Onward P Stored w w'
      → All (IsReady w) cs
      → All (IsReady w') cs
  IsReady-later w w' [] on h = tt
  IsReady-later w w' (c ∷ cs) on h = ((on.stays c.id h.0.0, h.0.1), IsReady-later w w' cs on h.1)

  module _ (uncancelled : (w : W) → svc.cancelled w ≡ none) where
    loop-Advanced :
        (cs : List (Commitment F)) (w : W) (lookback : Duration) (now : Time) (res : EvaluateResult)
        → All (IsReady w) cs
        → let out = evaluate_all svc risk policy w cs lookback now res in
          (out.2 ≡ none)
          × (out.1.evaluated ≡ res.evaluated)
          × (out.1.updated ≡ res.updated + length cs)
          × (length out.1.decisions ≡ length res.decisions + length cs)
    unfolding evaluate_all
    loop-Advanced [] w lookback now res h = (refl, refl, omega arith, omega arith)
    loop-Advanced (c ∷ cs) w lookback now res h =
        let (w', res') = evaluate_one svc risk policy w c lookback now res in
        let one = one-Advanced w c lookback now res h.0.0 h.0.1 in
        let (e, n, u, d) =
          loop-Advanced cs w' lookback now res'
            (IsReady-later w w' cs (one_go svc risk policy P Stored k w c lookback now res) h.1) in
        rw (uncancelled w)
          (e, n ∙ one.evaluated, omega (arith, u, one.updated), omega (arith, d, one.decisions))

    found-Advanced :
        (w : W) (r : Result (List (Commitment F))) (cs : List (Commitment F)) (lookback : Duration)
        (now : Time)
        → r ≡ ok cs
        → All (IsReady w) cs
        → let out = evaluate_found svc risk policy w r lookback now in
          (out.2 ≡ none)
          × (out.1.evaluated ≡ length cs)
          × (out.1.updated ≡ length cs)
          × (length out.1.decisions ≡ length cs)
    unfolding evaluate_found
    found-Advanced w r cs lookback now h a =
        let (e, n, u, d) = loop-Advanced cs w lookback now (empty_result (length cs)) a in
        rw h (e, n, omega (arith, u), omega (arith, d))

    -- Over services that meet their contract, and while the context is not cancelled, a pass from a
    -- world with the invariant ends without an error, and counts an update and reports a decision for every
    -- commitment that the scan found.
    pub full_pass :
        (w : W) (opts : EvaluateOptions) (now : Time)
        → P w
        → let out = evaluate svc risk policy w opts now in
          (cs : List (Commitment F)) × (svc.find_active (svc.inc_evaluations_run w) opts.limit
            ≡ ok cs)
          × (out.2 ≡ none)
          × (out.1.evaluated ≡ length cs)
          × (out.1.updated ≡ length cs)
          × (length out.1.decisions ≡ length cs)
    unfolding evaluate
    full_pass w opts now p =
        let (cs, e, a) =
          k.scan (svc.inc_evaluations_run w) opts.limit ((k.aside.runs_on w).kept p) in
        let (stopped, n, u, d) =
          found-Advanced (svc.inc_evaluations_run w) _ cs opts.signal_lookback now e a in
        (cs, e, stopped, n, u, d)
