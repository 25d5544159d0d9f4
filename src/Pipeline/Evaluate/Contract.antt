-- ===== src/Pipeline/Evaluate/Contract.antt =====
-- What internal/pipeline/evaluate.go needs of its repositories and clients so that a pass covers the
-- whole backlog, as an interface, and what a pass then does. The repositories of internal/store/memory
-- fill it in (Pipeline/Stored).
use nous.Prelude.{◌≡◌, ◌≢◌, false, none, some, List, All}
use nous.Prelude.Int.{ℤ}
use nous.Prelude.Time.{Time}
use nous.Prelude.Float.{Float64, outside_unit}
use nous.Domain.Errors.{Uuid, Result, ok}
use nous.Domain.Types.{ChronosSignal}
use nous.Domain.Commitment.{Commitment}
use nous.Domain.Decision.{Decision, new_decision}
use nous.Domain.Decision as Decisions
use nous.Domain.Intervention.{Intervention, ActionRequest}
use nous.Ports.{SignalFilter, RecallQuery, MnemosEvent}
use nous.Pipeline.Services.{Services, Mnemos}

-- From one world to a later one: the invariant is kept and no commitment is lost.
pub record Onward {W : Type 0} (P : W → Type 0) (Stored : W → Uuid → Type 0) (w w' : W)
    : Type 0 where
  pub kept : P w → P w'
  pub stays : (i : Uuid) → Stored w i → Stored w' i

-- Every operation of a pass but the two that write a score and a decision.
pub record Aside {F W : Type 0} ⦃fl : Float64 F⦄ (svc : Services F W) (P : W → Type 0)
    (Stored : W → Uuid → Type 0) : Type 0 where
  pub intervention_on :
      (w : W) (iv : Intervention) → Onward P Stored w (svc.save_intervention w iv).0
  pub recall_on :
      (m : Mnemos F W)
      → svc.mnemos ≡ some m
      → (w : W) (q : RecallQuery) → Onward P Stored w (m.recall w q).0
  pub append_on :
      (m : Mnemos F W)
      → svc.mnemos ≡ some m
      → (w : W) (e : MnemosEvent F) → Onward P Stored w (m.append_event w e).0
  pub signals_on :
      (get_signals : W → SignalFilter → W × Result (List (ChronosSignal F)))
      → svc.chronos ≡ some get_signals
      → (w : W) (f : SignalFilter) → Onward P Stored w (get_signals w f).0
  pub dry_run_on :
      (dry_run : W → ActionRequest → W)
      → svc.praxis ≡ some dry_run
      → (w : W) (r : ActionRequest) → Onward P Stored w (dry_run w r)
  pub uuid_on : (w : W) → Onward P Stored w (svc.new_uuid w).1
  pub runs_on : (w : W) → Onward P Stored w (svc.inc_evaluations_run w)
  pub score_on : (w : W) (x : F) → Onward P Stored w (svc.observe_risk_score w x)
  pub created_on : (w : W) → Onward P Stored w (svc.inc_interventions_created w)

pub record Contract {F W : Type 0} ⦃fl : Float64 F⦄ (svc : Services F W) (P : W → Type 0)
    (Stored : W → Uuid → Type 0) : Type 0 where
  -- no operation goes back, a new score being in range
  pub update_on :
      (w : W) (id : Uuid) (score : F) (now : Time)
      → outside_unit score ≡ false
      → Onward P Stored w (svc.update_risk w id score now).0
  pub decision_on : (w : W) (d : Decision F) → Onward P Stored w (svc.save_decision w d).0
  pub aside : Aside svc P Stored
  -- the scan finds stored commitments with a confidence in range, and a write that should succeed does
  pub scan :
      (w : W) (limit : ℤ)
      → P w
      → (cs : List (Commitment F)) × (svc.find_active w limit ≡ ok cs)
        × All (λ (c : Commitment F). Stored w c.id × (outside_unit c.confidence ≡ false)) cs
  pub updates :
      (w : W) (id : Uuid) (score : F) (now : Time)
      → Stored w id
      → (svc.update_risk w id score now).1 ≡ none
  pub decides :
      (w : W) (d : Decision F) → Decisions.validate d ≡ none → (svc.save_decision w d).1 ≡ none
  pub draws : (w : W) → (svc.new_uuid w).0 ≢ 0

module _ {W : Type 0} {P : W → Type 0} {Stored : W → Uuid → Type 0} where
  pub stay : (w : W) → Onward P Stored w w
  stay w = record { kept = λ p. p; stays = λ i s. s }

  pub then_on : (u v w : W) → Onward P Stored u v → Onward P Stored v w → Onward P Stored u w
  then_on u v w a b = record {
    kept = λ p. b.kept (a.kept p);
    stays = λ i s. b.stays i (a.stays i s);
  }
