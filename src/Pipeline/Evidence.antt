-- ===== src/Pipeline/Evidence.antt =====
-- internal/pipeline/evaluate.go: what a pass asks of the outside services, and the decision that it
-- records for a commitment.
use nous.Prelude.{ℕ, ◌+◌, ◌*◌, Bool, Option, none, some, List, [], ◌∷◌, ◌==◌, length, if◌then◌else◌}
use nous.Prelude.Int.{pos, pos_part, neg_part, sub_ℕ}
use nous.Prelude.Time.{Time, Duration, add, hour}
use nous.Prelude.Float.{Float64}
use nous.Domain.Errors.{Error, Result, ok, err}
use nous.Domain.Types.{ChronosSignal, MemoryRef}
use nous.Domain.Commitment.{Commitment}
use nous.Domain.Decision.{Decision, new_decision, text, count, number, risk_factors}
use nous.Domain.Intervention
use nous.Domain.Intervention.{Intervention, InterventionType, automation, ActionRequest}
use nous.Risk.Types.{RiskAssessment}
use nous.Risk.Engine
use nous.Risk.Engine.{evaluate_commitment, weights}
use nous.Pipeline.Services.{Services}

-- `now.Add(-d)`.
abbrev negated : Duration → Duration
negated d = sub_ℕ (neg_part d) (pos_part d)

abbrev is_zero : Duration → Bool
is_zero d = pos_part d + neg_part d == 0

-- A soft failure gives the empty list.
abbrev soft : {A : Type 0} → Result (List A) → List A
soft (ok xs) = xs
soft (err e) = []

-- `_, _ = client.Call(...)`
abbrev ignored : {W A : Type 0} → W × A → W
ignored (w, a) = w

module _ {F W : Type 0} ⦃fl : Float64 F⦄ (svc : Services F W) where
  unfoldable pub fetch_signals : W → Commitment F → Duration → Time → W × List (ChronosSignal F)
  fetch_signals w c lookback now = elim svc.chronos [
    | none ↦ (w, [])
    | some get_signals ↦
        (let back = if is_zero lookback then pos (72 * hour) else lookback in
          let (w', sigs) = get_signals w (record {
            scope_id = "";
            entity_refs = c.entities;
            since = some (add now (negated back));
            patterns = [];
            limit = pos 0;
          }) in
          (w', soft sigs))
  ]

  unfoldable pub fetch_memories : W → Commitment F → W × List MemoryRef
  fetch_memories w c = elim svc.mnemos [
    | none ↦ (w, [])
    | some client ↦
        (let (w', mems) = client.recall w (record {
          text = c.description;
          entities = c.entities;
          since = none;
          limit = pos 10;
        }) in
          (w', soft mems))
  ]

  -- The copy of a saved decision that Mnemos is sent; its failure is ignored.
  unfoldable pub mirror_decision : W → Commitment F → Decision F → RiskAssessment F → ℕ → Time → W
  mirror_decision w c dec a signal_count now = elim svc.mnemos [
    | none ↦ w
    | some client ↦ ignored (
        client.append_event w (record {
          kind = "nous.decision";
          occurred_at = now;
          actor = "nous";
          subject = svc.string_of c.id;
          body =
              ("decision_id", text (svc.string_of dec.id))
              ∷ ("risk_score", number a.score)
              ∷ ("confidence", number a.confidence)
              ∷ ("signal_count", count signal_count)
              ∷ [];
          source_refs = dec.context_refs;
        }))
  ]

  unfoldable pub praxis_dry_run : W → Commitment F → Intervention → W
  praxis_dry_run w c iv = elim svc.praxis [
    | none ↦ w
    | some dry_run ↦ dry_run w (record {
      id = iv.id;
      capability = "commitment.nudge";
      payload =
          ("commitment_id", Intervention.text (svc.string_of c.id))
          ∷ ("owner_id", Intervention.text c.owner_id)
          ∷ ("due_at", Intervention.instant c.due_at)
          ∷ [];
      constraints = [];
      idempotency_key = svc.string_of iv.id;
    })
  ]

  unfoldable pub after_save :
      W × Option Error
      → Commitment F
      → Decision F
      → RiskAssessment F
      → ℕ
      → Time
      → W × Result (Decision F)
  after_save (w, some e) c dec a signal_count now = (w, err e)
  after_save (w, none) c dec a signal_count now =
      (mirror_decision w c dec a signal_count now, ok dec)

module _ {F W : Type 0} ⦃fl : Float64 F⦄ (svc : Services F W) (risk : Engine.Config F) where
  -- The decision with its evidence and its replayable inputs.
  unfoldable pub filled : Decision F → Commitment F → RiskAssessment F → ℕ → Decision F
  filled dec c a signal_count = record dec {
    context_refs = c.source_refs;
    inputs =
        ("commitment_id", text (svc.string_of c.id)) ∷ ("signal_count", count signal_count) ∷ [];
    weights = weights svc.seconds risk;
    outcome = ("risk_score", number a.score) ∷ ("factors", risk_factors a.factors) ∷ [];
  }

  unfoldable pub save_built :
      W → Result (Decision F) → Commitment F → RiskAssessment F → ℕ → Time → W × Result (Decision F)
  unfolding after_save
  save_built w (err e) c a signal_count now = (w, err e)
  save_built w (ok d) c a signal_count now =
      let dec = filled d c a signal_count in
      after_save svc (svc.save_decision w dec) c dec a signal_count now

  unfoldable pub record_decision :
      W → Commitment F → RiskAssessment F → List (ChronosSignal F) → Time → W × Result (Decision F)
  unfolding save_built
  record_decision w c a signals now =
      let (id, w') = svc.new_uuid w in
      save_built w'
        (new_decision id "commitment.evaluate" "Risk evaluated against current signals."
          a.confidence now)
        c a (length signals) now
