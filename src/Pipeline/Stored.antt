-- ===== src/Pipeline/Stored.antt =====
-- The services of internal/pipeline/evaluate.go when the repositories are those of
-- internal/store/memory (store.go's `Open` of "memory", as cmd/nous/main.go hands them to
-- `NewEvaluator`). All else, clients and metrics and identifiers, is on its own state `X`.
pub mod Repository
pub mod Tables
pub mod Covers
pub mod Whole
pub mod Pass
use nous.Prelude.{ℕ, Option, none, some, String, List, Bool}
use nous.Prelude.Int.{ℤ}
use nous.Prelude.Time.{Time, Duration}
use nous.Prelude.Float.{Float64}
use nous.Domain.Errors.{Uuid, Error, Result, ok}
use nous.Domain.Types.{ChronosSignal}
use nous.Domain.Commitment.{Commitment}
use nous.Domain.Intervention.{ActionRequest}
use nous.Ports.{SignalFilter}
use nous.Store.Arrange.{Arrange}
use nous.Store.Memory.{State}
use nous.Store.Memory.Commitments
use nous.Store.Memory.Decisions
use nous.Store.Memory.Interventions
use nous.Pipeline.Services.{Services, Mnemos}

pub record Outside (F X : Type 0) : Type 0 where
  pub mnemos : Option (Mnemos F X)
  pub chronos : Option (X → SignalFilter → X × Result (List (ChronosSignal F)))
  pub praxis : Option (X → ActionRequest → X)
  pub cancelled : X → Option Error
  pub new_uuid : X → Uuid × X
  pub inc_evaluations_run : X → X
  pub observe_risk_score : X → F → X
  pub inc_interventions_created : X → X
  pub string_of : Uuid → String
  pub seconds : Duration → F
  pub message : String → F → F → String → String

-- An operation on the outside beside the store.
abbrev pub beside : {S X A : Type 0} → S × X → X × A → (S × X) × A
beside (s, x) (x', a) = ((s, x'), a)

abbrev pub at_store : {S X A : Type 0} → S × X → S × A → (S × X) × A
at_store (s, x) (s', a) = ((s', x), a)

abbrev pub lift_mnemos : {F S X : Type 0} → Option (Mnemos F X) → Option (Mnemos F (S × X))
lift_mnemos none = none
lift_mnemos (some m) = some (record {
  recall = λ w q. beside w (m.recall w.1 q);
  append_event = λ w e. beside w (m.append_event w.1 e);
})

abbrev pub lift_chronos :
    {F S X : Type 0}
    → Option (X → SignalFilter → X × Result (List (ChronosSignal F)))
    → Option (S × X → SignalFilter → (S × X) × Result (List (ChronosSignal F)))
lift_chronos none = none
lift_chronos (some f) = some (λ w q. beside w (f w.1 q))

abbrev pub lift_praxis :
    {S X : Type 0} → Option (X → ActionRequest → X) → Option (S × X → ActionRequest → S × X)
lift_praxis none = none
lift_praxis (some f) = some (λ w r. (w.0, f w.1 r))

module _ {F X : Type 0} ⦃fl : Float64 F⦄ (rows : Arrange (Commitment F)) (out : Outside F X) where
  abbrev pub stored : Services F (State F × X)
  stored = record {
    find_active = λ w limit. ok (Commitments.find_active rows w.0 limit);
    update_risk =
        λ w id score now. at_store w (Commitments.update_risk out.string_of w.0 id score now);
    save_commitment = λ w c. at_store w (Commitments.save out.string_of w.0 c);
    save_decision = λ w d. at_store w (Decisions.save out.string_of w.0 d);
    save_intervention = λ w iv. at_store w (Interventions.save out.string_of w.0 iv);
    mnemos = lift_mnemos out.mnemos;
    chronos = lift_chronos out.chronos;
    praxis = lift_praxis out.praxis;
    cancelled = λ w. out.cancelled w.1;
    new_uuid = λ w. ((out.new_uuid w.1).0, (w.0, (out.new_uuid w.1).1));
    inc_evaluations_run = λ w. (w.0, out.inc_evaluations_run w.1);
    observe_risk_score = λ w x. (w.0, out.observe_risk_score w.1 x);
    inc_interventions_created = λ w. (w.0, out.inc_interventions_created w.1);
    string_of = out.string_of;
    seconds = out.seconds;
    message = out.message;
  }
